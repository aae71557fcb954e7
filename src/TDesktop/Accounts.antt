-- ===== src/TDesktop/Accounts.antt =====
-- The accounts whose indices a stream holds are loaded one after the other.
use opentele.Prelude.{
  ℕ, ◌<◌, ◌≡◌, sym, ap, ◌∙◌, Bool, true, List, [], ◌∷◌, ◌++◌, lt→ltb, if◌then◌else◌, arith, length,
  All, append_assoc, append-nil,
}
use opentele.Prelude.Int.{pos}
use opentele.Exception.{ok}
use opentele.Exec.{continue, ◌>>=◌}
use opentele.Crypto.{Crypto}
use opentele.Auth.{AuthKey}
use opentele.Account.Layout.{int32_bytes}
use opentele.Qt.Primitive.{read_int32}
use opentele.Qt.Session.{Frame, reader}
use opentele.Qt.Session.Rules.{concat_map}
use opentele.Qt.Session.Values.{read_int32-Parses}
use opentele.Mtp.Config.{Config}
use opentele.StorageAccount.{Disk, Client, new_client}
use opentele.StorageAccount.Read.{start}
use opentele.TDesktop.{TDesktop}
use opentele.TDesktop.Load.{k_max_accounts, load_account, next_account, load_accounts}

-- An index with the client that is loaded for it.
pub record Loads (c : Crypto) (lenient : Bool) (disk : Disk) (key : AuthKey) (key_file : List ℕ)
    (index : ℕ) (client : Client) : Type 0 where
  pub small : index < k_max_accounts
  pub fresh : Client
  pub made : new_client c key_file index ≡ ok fresh
  pub read_config : Config
  pub started : start c disk lenient key fresh ≡ (ok read_config, client)
  pub is_ready : client.account.is_loaded ≡ true

abbrev pub with_client : Client → TDesktop → TDesktop
with_client client t = record t { accounts = t.accounts ++ client ∷ [] }

abbrev pub index_bytes : ℕ × Client → List ℕ
index_bytes entry = int32_bytes (pos entry.0)

-- The clients of entries, behind those that are there.
abbrev pub with_entries : List (ℕ × Client) → TDesktop → TDesktop
with_entries [] t = t
with_entries (entry ∷ entries) t = with_entries entries (with_client entry.1 t)

module _ (c : Crypto) (lenient : Bool) (disk : Disk) (key : AuthKey) where
  load_account-Loads :
      (index : ℕ) (client : Client) (t : TDesktop)
      → Loads c lenient disk key t.key_file index client
      → load_account c lenient disk key (pos index) t ≡ (ok tt, with_client client t)
  unfolding load_account
  load_account-Loads index client t h =
      rw (lt→ltb index k_max_accounts h.small, h.made, h.started)
        (ap (λ b. if b then (ok tt, with_client client t) else (ok tt, t)) h.is_ready)

  -- The stream behind the indices, and the client with the accounts.
  pub load_accounts-Loads :
      (entries : List (ℕ × Client)) (f : Frame) (done rest : List ℕ) (t : TDesktop)
      → All (λ e. Loads c lenient disk key t.key_file e.0 e.1) entries
      → load_accounts c lenient disk
          (length entries)
          key
          (reader f done (concat_map index_bytes entries ++ rest))
          t
        ≡ (ok (reader f (done ++ concat_map index_bytes entries) rest), with_entries entries t)
  unfolding load_accounts ◌>>=◌
  load_accounts-Loads [] f done rest t h =
      ap (λ d. (ok (reader f d rest), t)) (sym (append-nil done))
  load_accounts-Loads (entry ∷ entries) f done rest t h =
      let own = index_bytes entry in
      let others = concat_map index_bytes entries in
      let next = load_accounts c lenient disk (length entries) key in
      ap (λ bs. next_account c lenient disk next key (read_int32 (reader f done bs)) t)
        (append_assoc own others rest)
      ∙ ap (λ r. next_account c lenient disk next key r t)
          ((read_int32-Parses (pos entry.0) (omega (arith, h.0.small), omega arith)).at f done
            (others ++ rest))
      ∙ ap (continue (λ u. next (reader f (done ++ own) (others ++ rest))))
          (load_account-Loads entry.0 entry.1 t h.0)
      ∙ load_accounts-Loads entries f (done ++ own) rest (with_client entry.1 t) h.1
      ∙ ap (λ d. (ok (reader f d rest), with_entries entries (with_client entry.1 t)))
          (append_assoc done own others)
