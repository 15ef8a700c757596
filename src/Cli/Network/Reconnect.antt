-- ===== src/Cli/Network/Reconnect.antt =====
-- cli/commands/network.rs and net/sync.rs: a peer that comes back to a serving session.
use re_vault.Prelude.{ℕ, ◌+◌, ◌^◌, ◌<◌, ◌≡◌, ap, sym, ◌∙◌, List, [], ◌++◌, some, length}
use re_vault.Error.{ok}
use re_vault.Crypto.{Documented}
use re_vault.Identity.{PeerId}
use re_vault.Vault.State.{Platform, Vault, Range, done, replay}
use re_vault.Vault.Lifecycle.{chain_state}
use re_vault.Vault.ChangeLog.Rules.{replay-append}
use re_vault.Vault.ChainCount.Rules.{seq_of}
use re_vault.Net.Journal.{ranges_since}
use re_vault.Net.Protocol.{chain_state as chain_state_message, patch, decode}
use re_vault.Net.Protocol.RoundTrip.{Fits}
use re_vault.Net.Handshake.{SecureChannel, recv}
use re_vault.Net.Handshake.Channel.{InStep}
use re_vault.Net.Sync.{serve_stream, apply_incoming}
use re_vault.Net.Sync.CatchUp.{file-apply_incoming, serve_stream-patch}
use re_vault.Cli.Network.{Event, Serving, serve_loop, execute}
use re_vault.Cli.Network.Events.{ranges_since-serve_loop}

-- A serving session in which the chain's first number and the number of events add up to less than 2^64.
-- A peer whose replica is the vault's file at one point of it, with the change log empty at that point,
-- connects at a later point and sends a ChainState with the chain number of the first point; the journal
-- has ranges for that number, they fit a message, the two ends of the channel are in step, and the
-- connection ends well. Then what the session sent, applied to the replica, makes of it a file that
-- becomes the vault's file once the writes are replayed that the change log holds at the later point.
pub apply_incoming-serve_loop :
    (w : Platform)
    → Documented w.crypto
    → (v : Vault) (es ds : List Event) (a b : SecureChannel) (peer : PeerId)
      (stream bytes rest last_hash frame later : List ℕ) (ranges : List Range) (replica : Vault)
    → seq_of v + length es + length ds < 2 ^ 64
    → (execute w es v).vault.change_log ≡ []
    → replica.file ≡ (execute w es v).vault.file
    → (recv w.crypto a stream).0 ≡ ok (bytes, rest)
    → decode bytes ≡ ok (chain_state_message (chain_state (execute w es v).vault).0 last_hash)
    → ranges_since (serve_loop w ds (execute w es v)).journal (chain_state (execute w es v).vault).0
      ≡ some ranges
    → Fits (patch (chain_state (execute w es v).vault).0 ranges)
    → InStep (recv w.crypto a stream).1 b
    → (serve_stream w a peer
        (some (serve_loop w ds (execute w es v)).journal)
        stream
        (serve_loop w ds (execute w es v)).vault).0
      ≡ done (frame, ok peer)
    → replay
        (serve_loop w ds (execute w es v)).vault.change_log
        (apply_incoming w b (frame ++ later) replica).1.file
      ≡ (serve_loop w ds (execute w es v)).vault.file
apply_incoming-serve_loop w laws v es ds a b peer stream bytes rest last_hash frame later ranges
      replica bound empty same opened decoded found fits s ended =
    let t : Serving = serve_loop w ds (execute w es v) in
    let sent =
      serve_stream-patch w a peer t.journal stream bytes rest last_hash frame _ ranges opened
        decoded found t.vault ended in
    ap (replay t.vault.change_log) (
      file-apply_incoming w laws _ b _ ranges frame later replica s fits sent
      ∙ ap (replay ranges) same)
    ∙ sym (replay-append ranges t.vault.change_log (execute w es v).vault.file)
    ∙ ranges_since-serve_loop w v es ds ranges bound empty found
