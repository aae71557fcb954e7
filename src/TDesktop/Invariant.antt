-- ===== src/TDesktop/Invariant.antt =====
-- What holds of a client that has loaded: one to six accounts, each of them loaded and with an index
-- below six, and a main account.
use opentele.Prelude.{
  ℕ, zero, suc, ◌+◌, ◌≤◌, ◌<◌, ◌≡◌, refl, ap, Bool, true, false, Option, none, some, List, [], ◌∷◌,
  ◌++◌, ltb, if◌then◌else◌, length, arith, All, All-append, length-append,
}
use opentele.Prelude.Int.{ℤ, pos, negsuc, pos_part}
use opentele.Exception.{Exception, Result, ok, err, is_open_tele, open_tele_exception}
use opentele.Exec.{Exec, pure, raise, lift, modify, ◌>>=◌}
use opentele.Crypto.{Crypto}
use opentele.Auth.{AuthKey}
use opentele.Qt.ByteArray.{QByteArray}
use opentele.Qt.DataStream
use opentele.Qt.DataStream.{QDataStream}
use opentele.Qt.Primitive.{read_int32}
use opentele.Mtp.Config.{Config}
use opentele.StorageAccount.{Disk, Client, new_storage, new_client}
use opentele.StorageAccount.Index.{start-index}
use opentele.Storage.Names.{compose_data_string}
use opentele.Exception.{>>=-eq-ok, ok-injective}
use opentele.Prelude.{sym}
use opentele.StorageAccount.Read.{start}
use opentele.TDesktop.{TDesktop}
use opentele.TDesktop.Leaves.{
  Leaves, continue-Leaves, bind-Leaves, if-Leaves, returns-Leaves, raises-Leaves,
}
use opentele.TDesktop.Load.{
  k_max_accounts, check_count, keep_started, find_account, choose_main, or_else, start_client,
  load_account, next_account, load_accounts, finish_load, load_counted, load_info, read_active,
  load_key, load_from_tdata,
}

abbrev pub IsLoadedClient : Client → Type 0
IsLoadedClient a = (a.account.is_loaded ≡ true) × (a.index < k_max_accounts)

-- A client after a load.
pub record IsInOrder (t : TDesktop) : Type 0 where
  pub some_there : 0 < length t.accounts
  pub at_most : length t.accounts ≤ k_max_accounts
  pub all_loaded : All IsLoadedClient t.accounts
  pub main : Client
  pub main_there : t.main_account ≡ some main

-- Accounts read so far, with room for more.
record HasRoom (n : ℕ) (t : TDesktop) : Type 0 where
  room : length t.accounts + n ≤ k_max_accounts
  loaded_all : All IsLoadedClient t.accounts

-- A new client has the index it is asked for.
new_client-index :
    (c : Crypto) (key_file : List ℕ) (index : ℕ) (client : Client)
    → new_client c key_file index ≡ ok client
    → client.index ≡ index
unfolding new_client
new_client-index c key_file index client e =
    let (storage, there, made) =
      >>=-eq-ok (new_storage c (compose_data_string key_file index)) _ e in
    ap (λ x. x.index) (sym (ok-injective made))

grown :
    (n : ℕ) (client : Client) (t : TDesktop)
    → IsLoadedClient client
    → HasRoom (suc n) t
    → HasRoom n (record t { accounts = t.accounts ++ client ∷ [] })
grown n client t own h = record {
  room = omega (arith, h.room, length-append t.accounts (client ∷ []));
  loaded_all = All-append IsLoadedClient t.accounts (client ∷ []) h.loaded_all (own, tt);
}

same : (n : ℕ) (t : TDesktop) → HasRoom (suc n) t → HasRoom n t
same n t h = record { room = omega (arith, h.room); loaded_all = h.loaded_all }

-- What is left when an exception is or is not caught.
caught-Leaves :
    (n : ℕ) (x : Exception) (t : TDesktop)
    → HasRoom (suc n) t
    → Leaves (λ u y. HasRoom n y) (if is_open_tele x then (ok tt, t) else (err x, t))
caught-Leaves n x t h =
    if-Leaves _ (is_open_tele x) _ _ (λ e. returns-Leaves _ tt t (same n t h))
      (λ e. raises-Leaves _ x t)

-- An account that was started leaves room for the others.
keep_started-Leaves :
    (n : ℕ) (r : Result Config × Client) (t : TDesktop)
    → r.1.index < k_max_accounts
    → HasRoom (suc n) t
    → Leaves (λ u x. HasRoom n x) (keep_started r t)
keep_started-Leaves n (ok config, client) t small h =
    if-Leaves _ client.account.is_loaded _ _
      (λ loaded. returns-Leaves _ tt _ (grown n client t (loaded, small) h))
      (λ not_loaded. returns-Leaves _ tt t (same n t h))
keep_started-Leaves n (err x, client) t small h = caught-Leaves n x t h

lt-of-ltb : (a b : ℕ) → ltb a b ≡ true → a < b
lt-of-ltb a b h = ground arith

module _ (c : Crypto) (lenient : Bool) (disk : Disk) (key : AuthKey) where
  start_client-Leaves :
      (n index : ℕ) (r : Result Client) (t : TDesktop)
      → ((client : Client) → r ≡ ok client → client.index ≡ index)
      → index < k_max_accounts
      → HasRoom (suc n) t
      → Leaves (λ u x. HasRoom n x) (start_client c lenient disk key r t)
  start_client-Leaves n index (ok client) t numbered small h =
      keep_started-Leaves n (start c disk lenient key client) t
        (rw (start-index c disk lenient key client, numbered client refl) small) h
  start_client-Leaves n index (err x) t numbered small h = caught-Leaves n x t h

  load_account-Leaves :
      (n : ℕ) (index : ℤ) (t : TDesktop)
      → HasRoom (suc n) t
      → Leaves (λ u x. HasRoom n x) (load_account c lenient disk key index t)
  unfolding load_account
  load_account-Leaves n (pos index) t h =
      if-Leaves _ (ltb index k_max_accounts) _ _
        (λ small.
          start_client-Leaves n index (new_client c t.key_file index) t
            (λ client. new_client-index c t.key_file index client)
            (lt-of-ltb index k_max_accounts small) h)
        (λ large. returns-Leaves _ tt t (same n t h))
  load_account-Leaves n (negsuc index) t h = returns-Leaves _ tt t (same n t h)

  next_account-Leaves :
      (n : ℕ) (rest : QDataStream → Exec TDesktop QDataStream) (r : Result ℤ × QDataStream)
      (t : TDesktop)
      → HasRoom (suc n) t
      → ((s : QDataStream) (x : TDesktop) → HasRoom n x → Leaves (λ s' y. HasRoom 0 y) (rest s x))
      → Leaves (λ s' y. HasRoom 0 y) (next_account c lenient disk rest key r t)
  next_account-Leaves n rest (ok index, s) t h keeps =
      bind-Leaves (λ u x. HasRoom n x) (λ s' y. HasRoom 0 y) (load_account c lenient disk key index)
        (λ u. rest s) t (load_account-Leaves n index t h) (λ u x room. keeps s x room)
  next_account-Leaves n rest (err e, s) t h keeps = raises-Leaves _ e t

  load_accounts-Leaves :
      (n : ℕ) (s : QDataStream) (t : TDesktop)
      → HasRoom n t
      → Leaves (λ s' y. HasRoom 0 y) (load_accounts c lenient disk n key s t)
  unfolding load_accounts
  load_accounts-Leaves zero s t h = returns-Leaves _ s t h
  load_accounts-Leaves (suc n) s t h =
      next_account-Leaves n (load_accounts c lenient disk n key) (read_int32 s) t h
        (load_accounts-Leaves n)

or_else-there :
    (found before : Option Client) (clients : List Client)
    → 0 < length clients
    → (m : Client) × (or_else found before clients ≡ some m)
or_else-there (some m) before clients h = (m, refl)
or_else-there none (some m) clients h = (m, refl)
or_else-there none none [] h = absurd (omega arith)
or_else-there none none (m ∷ clients) h = (m, refl)

-- The state after the last step of a load.
ended : ℤ → TDesktop → TDesktop
ended active t = record t {
  active_index = active;
  main_account = choose_main t.main_account active t.accounts;
  is_loaded = true;
}

ended-IsInOrder :
    (active : ℤ) (t : TDesktop) → 0 < length t.accounts → HasRoom 0 t → IsInOrder (ended active t)
unfolding ended choose_main
ended-IsInOrder active t more h =
    let (m, there) =
      or_else-there (find_account active t.accounts) t.main_account t.accounts more in
    record {
      some_there = more;
      at_most = omega (arith, h.room);
      all_loaded = h.loaded_all;
      main = m;
      main_there = there;
    }

lift-Leaves :
    {A : Type 0} (P : TDesktop → Type 0) (r : Result A) (t : TDesktop)
    → P t
    → Leaves (λ a x. P x) (lift r t)
lift-Leaves P r t h = record { at = λ a e. h }

-- A step that does not return a value for what follows.
abbrev Ready : TDesktop → Type 0
Ready x = (0 < length x.accounts) × HasRoom 0 x

guard-Leaves :
    (P : TDesktop → Type 0) (b : Bool) (e : Exception) (t : TDesktop)
    → (b ≡ true → P t)
    → Leaves (λ u x. P x) ((if b then pure tt else raise e) t)
guard-Leaves P true e t h = returns-Leaves _ tt t (h refl)
guard-Leaves P false e t h = raises-Leaves _ e t

check_count-le :
    (count : ℤ) (available : ℕ) {u : Unit {0}}
    → check_count count available ≡ ok u
    → pos_part count ≤ k_max_accounts
unfolding check_count
check_count-le (pos n) available e = ground arith
check_count-le (negsuc n) available e = cc

module _ (c : Crypto) (lenient : Bool) (disk : Disk) where
  active-Leaves :
      (s : QDataStream) (t : TDesktop)
      → Ready t
      → Leaves (λ u x. IsInOrder x) ((lift (read_active s) >>= λ active. modify (ended active)) t)
  active-Leaves s t h =
      bind-Leaves (λ a x. Ready x) (λ u x. IsInOrder x) (lift (read_active s))
        (λ active. modify (ended active)) t (lift-Leaves Ready (read_active s) t h)
        (λ active x ready.
          returns-Leaves _ tt (ended active x) (ended-IsInOrder active x ready.0 ready.1))

  finish_load-Leaves :
      (s : QDataStream) (t : TDesktop)
      → HasRoom 0 t
      → Leaves (λ u x. IsInOrder x) (finish_load c lenient disk s t)
  unfolding ended ◌>>=◌
  finish_load-Leaves s t h =
      continue-Leaves (λ u x. Ready x) (λ u x. IsInOrder x)
        (λ u. lift (read_active s) >>= λ active. modify (ended active))
        ((if ltb 0 (length t.accounts) then pure tt else raise open_tele_exception) t)
        (guard-Leaves Ready (ltb 0 (length t.accounts)) open_tele_exception t
          (λ more. (lt-of-ltb 0 (length t.accounts) more, h)))
        (λ u x ready. active-Leaves s x ready)

  load_counted-Leaves :
      (key : AuthKey) (r : Result ℤ × QDataStream) (t : TDesktop)
      → t.accounts ≡ []
      → Leaves (λ u x. IsInOrder x) (load_counted c lenient disk key r t)
  load_counted-Leaves key (ok count, s) t none_there =
      bind-Leaves (λ u x. HasRoom (pos_part count) x) (λ u x. IsInOrder x)
        (lift (check_count count (DataStream.bytes_available s)))
        (λ u. load_accounts c lenient disk (pos_part count) key s >>= finish_load c lenient disk) t
        (record {
          at = λ u e. record {
            room =
                rw none_there
                  (omega (arith, check_count-le count (DataStream.bytes_available s) e));
            loaded_all = rw none_there tt;
          };
        })
        (λ u x room.
          bind-Leaves (λ s' y. HasRoom 0 y) (λ u' y. IsInOrder y)
            (load_accounts c lenient disk (pos_part count) key s) (finish_load c lenient disk) x
            (load_accounts-Leaves c lenient disk key (pos_part count) s x room) finish_load-Leaves)
  load_counted-Leaves key (err e, s) t none_there = raises-Leaves _ e t

  -- Steps that leave the accounts alone.
  quiet :
      {A B : Type 0} (m : Exec TDesktop A) (k : A → Exec TDesktop B) (Q : B → TDesktop → Type 0)
      (t : TDesktop)
      → Leaves (λ a x. x.accounts ≡ []) (m t)
      → ((a : A) (x : TDesktop) → x.accounts ≡ [] → Leaves Q (k a x))
      → Leaves Q ((m >>= k) t)
  quiet m k Q t h next = bind-Leaves (λ a x. x.accounts ≡ []) Q m k t h next

  lifted :
      {A : Type 0} (r : Result A) (t : TDesktop)
      → t.accounts ≡ []
      → Leaves (λ a x. x.accounts ≡ []) (lift r t)
  lifted r t h = lift-Leaves (λ x. x.accounts ≡ []) r t h

  load_info-Leaves :
      (key : AuthKey) (info_encrypted : QByteArray) (t : TDesktop)
      → t.accounts ≡ []
      → Leaves (λ u x. IsInOrder x) (load_info c lenient disk key info_encrypted t)
  unfolding load_info
  load_info-Leaves key info_encrypted t h =
      quiet _ _ _ t (lifted _ t h)
        (λ info x e. load_counted-Leaves key (read_int32 info.stream) x e)

  load_key-Leaves :
      (version : ℕ) (parts : QByteArray × QByteArray × QByteArray) (t : TDesktop)
      → t.accounts ≡ []
      → Leaves (λ u x. IsInOrder x) (load_key c lenient disk version parts t)
  unfolding load_key
  load_key-Leaves version (salt, key_encrypted, info_encrypted) t h =
      quiet _ _ _ t (returns-Leaves _ t.passcode_bytes t h) (λ bytes x0 e0.
        quiet _ _ _ x0 (returns-Leaves _ tt _ e0) (λ u x1 e1.
          quiet _ _ _ x1 (lifted _ x1 e1) (λ inner x2 e2.
            quiet _ _ _ x2 (lifted _ x2 e2) (λ key x3 e3.
              quiet _ _ _ x3 (returns-Leaves _ tt _ e3)
                (λ v x4 e4. load_info-Leaves key info_encrypted x4 e4)))))

  -- Whatever the files hold, where a client is loaded without an exception it has one to six
  -- accounts, each of them loaded and with an index below six, and a main account.
  pub load_from_tdata-IsInOrder :
      (t : TDesktop)
      → (load_from_tdata c lenient disk t).0 ≡ ok tt
      → IsInOrder (load_from_tdata c lenient disk t).1
  unfolding load_from_tdata
  load_from_tdata-IsInOrder t =
      (quiet (modify (λ x. record x { accounts = [] })) _ (λ u x. IsInOrder x) t
          (returns-Leaves _ tt _ refl)
          (λ u x0 e0. quiet _ _ _ x0 (returns-Leaves _ x0.key_file x0 e0) (λ key_file x1 e1.
            quiet _ _ _ x1 (lifted _ x1 e1) (λ key_data x2 e2.
              quiet _ _ _ x2 (lifted _ x2 e2)
                (λ parts x3 e3. load_key-Leaves key_data.version parts x3 e3))))).at
        tt
