-- ===== src/Net/Sync/Reads.antt =====
-- net/sync.rs: `serve_stream` changes neither the log's account of the file nor the chain's next number.
use re_vault.Prelude.{ℕ, refl, sym, append-nil, List, [], Option, none, some}
use re_vault.Error.{Result, ok, err}
use re_vault.Identity.{PeerId}
use re_vault.Vault.State.{Platform, Range, replay, export_full}
use re_vault.Vault.ChangeLog.Rules.{Logged, Logged-bind, Logged-pure, Logged-if, logged}
use re_vault.Vault.ChainCount.Rules.{Steady, Steady-bind, Steady-pure, Steady-if, steady}
use re_vault.Vault.ChainCount.Reads.{Logged-list_recipients, Steady-list_recipients}
use re_vault.Net.Journal.{PatchJournal}
use re_vault.Net.Protocol.{
  SyncMessage, patch, full_sync, up_to_date, error, chain_state as state_message,
}
use re_vault.Net.Handshake.{SecureChannel}
use re_vault.Net.Sync.{reply, answer, read_request, serve_stream}

module _ (w : Platform) where
  Logged-export_full : Logged export_full
  unfolding export_full replay
  Logged-export_full = record {
    ranges = λ v. [];
    log = λ v. sym (append-nil v.change_log);
    file = λ v. refl;
  }

  Steady-export_full : Steady export_full
  unfolding export_full
  Steady-export_full = record { seq = λ v. refl }

  Logged-reply : (o : Option (List Range)) (n : ℕ) → Logged (reply o n)
  unfolding reply
  Logged-reply none n = search (logged, Logged-export_full)
  Logged-reply (some rs) n = Logged-pure _

  Steady-reply : (o : Option (List Range)) (n : ℕ) → Steady (reply o n)
  unfolding reply
  Steady-reply none n = search (steady, Steady-export_full)
  Steady-reply (some rs) n = Steady-pure _

  module _ (channel : SecureChannel) (peer : PeerId) (journal : Option PatchJournal) where
    Logged-answer : (r : Result SyncMessage) → Logged (answer w channel peer journal r)
    unfolding answer
    Logged-answer (err e) = Logged-pure _
    Logged-answer (ok (state_message n h)) = Logged-bind (Logged-reply _ n) (λ m. Logged-pure _)
    Logged-answer (ok (patch n rs)) = Logged-pure _
    Logged-answer (ok (full_sync bytes)) = Logged-pure _
    Logged-answer (ok up_to_date) = Logged-pure _
    Logged-answer (ok (error m)) = Logged-pure _

    Steady-answer : (r : Result SyncMessage) → Steady (answer w channel peer journal r)
    unfolding answer
    Steady-answer (err e) = Steady-pure _
    Steady-answer (ok (state_message n h)) = Steady-bind (Steady-reply _ n) (λ m. Steady-pure _)
    Steady-answer (ok (patch n rs)) = Steady-pure _
    Steady-answer (ok (full_sync bytes)) = Steady-pure _
    Steady-answer (ok up_to_date) = Steady-pure _
    Steady-answer (ok (error m)) = Steady-pure _

    Logged-read_request :
        (r : Result (List ℕ × List ℕ)) → Logged (read_request w channel peer journal r)
    unfolding read_request
    Logged-read_request (err e) = Logged-pure _
    Logged-read_request (ok (bytes, rest)) = Logged-answer _

    Steady-read_request :
        (r : Result (List ℕ × List ℕ)) → Steady (read_request w channel peer journal r)
    unfolding read_request
    Steady-read_request (err e) = Steady-pure _
    Steady-read_request (ok (bytes, rest)) = Steady-answer _

  pub Logged-serve_stream :
      (channel : SecureChannel) (peer : PeerId) (journal : Option PatchJournal) (stream : List ℕ)
      → Logged (serve_stream w channel peer journal stream)
  unfolding serve_stream
  Logged-serve_stream channel peer journal stream =
      Logged-bind (Logged-list_recipients w)
        (λ infos. Logged-if _ (Logged-read_request _ peer journal _) (Logged-pure _))

  pub Steady-serve_stream :
      (channel : SecureChannel) (peer : PeerId) (journal : Option PatchJournal) (stream : List ℕ)
      → Steady (serve_stream w channel peer journal stream)
  unfolding serve_stream
  Steady-serve_stream channel peer journal stream =
      Steady-bind (Steady-list_recipients w)
        (λ infos. Steady-if _ (Steady-read_request _ peer journal _) (Steady-pure _))
