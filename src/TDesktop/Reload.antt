-- ===== src/TDesktop/Reload.antt =====
-- A client is loaded from its key file and the files of its accounts.
use opentele.Prelude.{
  ℕ, ◌+◌, ◌*◌, ◌^◌, ◌≤◌, ◌<◌, ◌≡◌, refl, ap, ◌∙◌, Bool, true, false, some, List, [], ◌∷◌, ◌++◌,
  ◌==◌, lt→ltb, arith, length, length-append, All, append-nil, inr,
}
use opentele.Prelude.Int.{ℤ, pos, mask}
use opentele.Exception.{ok}
use opentele.Exec.{continue, ◌>>=◌}
use opentele.Bytes.{little_endian, length-big_endian}
use opentele.Crypto.{Crypto, IsCrypto}
use opentele.Auth.{AuthKey, generated, from_stream}
use opentele.Account.Layout.{int32_bytes}
use opentele.Qt.ByteArray.{of_bytes, size}
use opentele.Qt.Buffer.{read_only}
use opentele.Qt.Blob.{null_marker, read_raw_data}
use opentele.Qt.DataStream.{at_end, bytes_available}
use opentele.Qt.Primitive.{read_int32}
use opentele.Qt.Session.{Frame, Parses, reader, frame}
use opentele.Qt.Session.Rules.{pure-Parses, bind-Parses, bind-Parses_last, concat_map}
use opentele.Qt.Session.Values.{IsInt32, map-Parses, read_int32-Parses}
use opentele.Qt.Session.Blobs.{qbytearray_bytes, read_qbytearray-Parses, read_raw_data-Parses}
use opentele.MapData.Blocks.{read_three}
use opentele.MapData.Sections.{bytes_available-reader, at_end-reader, expect_stream_status-Parses}
use opentele.MapData.Descriptor.{opened_stream}
use opentele.Storage.Local.{whole, decrypt_local}
use opentele.Storage.Local.RoundTrip.{plain, sealed}
use opentele.Storage.Local.Opened.{opened, decrypt_local-sealed}
use opentele.Storage.File.{app_version}
use opentele.Storage.File.Reload.{HasFile, reloaded, read_file-HasFile}
use opentele.Storage.Names.{create_local_key}
use opentele.Storage.Sealed.{roomed, size-roomed}
use opentele.StorageAccount.{Disk, Client}
use opentele.TDesktop.{TDesktop}
use opentele.TDesktop.Load.{
  k_max_accounts, key_name, check_count, choose_main, read_active, finish_load, load_counted,
  load_info, load_key, load_from_tdata,
}
use opentele.TDesktop.Accounts.{Loads, with_client, with_entries, index_bytes, load_accounts-Loads}

-- The information about the accounts
abbrev pub info_bytes : List (ℕ × Client) → ℤ → List ℕ
info_bytes entries active =
    int32_bytes (pos (length entries)) ++ (concat_map index_bytes entries ++ int32_bytes active)

-- The client when its accounts are loaded.
abbrev pub with_active : ℤ → TDesktop → TDesktop
with_active active t = record t {
  active_index = active;
  main_account = choose_main t.main_account active t.accounts;
  is_loaded = true;
}

length-indices :
    (entries : List (ℕ × Client)) → length (concat_map index_bytes entries) ≡ 4 * length entries
length-indices [] = refl
length-indices (e ∷ entries) = omega (
  arith,
  length-append (index_bytes e) (concat_map index_bytes entries),
  length-big_endian 4 (mask (pos e.0) (256 ^ 4)),
  length-indices entries,
)

with_entries-longer :
    (entries : List (ℕ × Client)) (t : TDesktop)
    → length (with_entries entries t).accounts ≡ length t.accounts + length entries
with_entries-longer [] t = omega arith
with_entries-longer (e ∷ entries) t =
    omega
      (arith, with_entries-longer entries (with_client e.1 t), length-append t.accounts (e.1 ∷ []))

check_count-ok :
    (n available : ℕ)
    → 0 < n
    → n ≤ k_max_accounts
    → n * 4 ≤ available
    → check_count (pos n) available ≡ ok tt
unfolding check_count
check_count-ok n available more most room = ground arith

-- What is decrypted from a sealed payload.
opened_payload :
    (c : Crypto) (key : AuthKey) (bs : List ℕ)
    → IsCrypto c
    → length bs < 2 ^ 31
    → decrypt_local c (of_bytes (sealed c key (plain (roomed bs)))) key ≡ ok (opened (roomed bs))
opened_payload c key bs laws h =
    decrypt_local-sealed c key (roomed bs) laws (inr (omega arith)) (omega (arith, size-roomed bs))

abbrev header : List ℕ → List ℕ
header bs = little_endian 4 (size (whole (roomed bs)))

module _ (c : Crypto) (lenient : Bool) (disk : Disk) (key : AuthKey) (entries : List (ℕ × Client))
    (active : ℤ) (more : 0 < length entries) (most : length entries ≤ k_max_accounts)
    (fits : IsInt32 active) where
  finish_load-active :
      (f : Frame) (done : List ℕ) (t : TDesktop)
      → 0 < length t.accounts
      → finish_load c lenient disk (reader f done (int32_bytes active)) t
        ≡ (ok tt, with_active active t)
  unfolding read_active ◌>>=◌
  finish_load-active f done t there =
      let four = length-big_endian 4 (mask active (256 ^ 4)) in
      let not_end : at_end (reader f done (int32_bytes active)) ≡ false =
        at_end-reader f done (int32_bytes active) ∙ ap (λ n. n == 0) four in
      let value = (read_int32-Parses active fits).at f done [] in
      rw (lt→ltb 0 (length t.accounts) there, not_end)
        (ap (λ r. continue (λ a x. (ok tt, with_active a x)) (r.0, t))
          (rw (append-nil (int32_bytes active)) at value))

  load_counted-entries :
      (f : Frame) (done : List ℕ) (t : TDesktop)
      → All (λ e. Loads c lenient disk key t.key_file e.0 e.1) entries
      → load_counted c lenient disk key
          (
            ok (pos (length entries)),
            reader f done (concat_map index_bytes entries ++ int32_bytes active),
          )
          t
        ≡ (ok tt, with_active active (with_entries entries t))
  unfolding ◌>>=◌
  load_counted-entries f done t h =
      let bs = concat_map index_bytes entries ++ int32_bytes active in
      let room : length entries * 4 ≤ bytes_available (reader f done bs) = omega (
        arith,
        bytes_available-reader f done bs,
        length-append (concat_map index_bytes entries) (int32_bytes active),
        length-indices entries,
      ) in
      rw (check_count-ok (length entries) (bytes_available (reader f done bs)) more most room) (
        ap (continue (finish_load c lenient disk))
          (load_accounts-Loads c lenient disk key entries f done (int32_bytes active) t h)
        ∙ finish_load-active f (done ++ concat_map index_bytes entries) (with_entries entries t)
            (omega (arith, with_entries-longer entries t, more)))

  -- From the encrypted information on.
  load_info-entries :
      (t : TDesktop)
      → IsCrypto c
      → All (λ e. Loads c lenient disk key t.key_file e.0 e.1) entries
      → load_info c lenient disk key
          (of_bytes (sealed c key (plain (roomed (info_bytes entries active)))))
          t
        ≡ (ok tt, with_active active (with_entries entries t))
  unfolding load_info ◌>>=◌
  load_info-entries t laws h =
      let info = info_bytes entries active in
      let rest = concat_map index_bytes entries ++ int32_bytes active in
      let short : length info < 2 ^ 31 = omega (
        arith,
        most,
        length-append (int32_bytes (pos (length entries))) rest,
        length-append (concat_map index_bytes entries) (int32_bytes active),
        length-indices entries,
        length-big_endian 4 (mask active (256 ^ 4)),
        length-big_endian 4 (mask (pos (length entries)) (256 ^ 4)),
      ) in
      let f = frame read_only false in
      rw (opened_payload c key info laws short) (
        ap (λ s. load_counted c lenient disk key (read_int32 s) t)
          (opened_stream (roomed info) refl)
        ∙ ap (λ r. load_counted c lenient disk key r t)
            ((read_int32-Parses (pos (length entries)) (omega (arith, most), omega arith)).at f
              (header info) rest)
        ∙ load_counted-entries f (header info ++ int32_bytes (pos (length entries))) t h)

-- A generated key, as the key file holds it.
abbrev pub generated_key : List ℕ → AuthKey
generated_key bs = record { key = bs; type = generated; dc_id = pos 0 }

from_stream-generated :
    (bs : List ℕ) → length bs ≡ 256 → Parses (from_stream generated (pos 0)) bs (generated_key bs)
unfolding from_stream
from_stream-generated bs len =
    map-Parses {B = AuthKey} (read_raw_data (pos 256)) generated_key bs bs
      (read_raw_data-Parses 256 bs len)

three_blocks-Parses :
    (a b d : List ℕ)
    → length a < null_marker
    → length b < null_marker
    → length d < null_marker
    → Parses read_three
        (qbytearray_bytes (of_bytes a)
          ++ (qbytearray_bytes (of_bytes b) ++ qbytearray_bytes (of_bytes d)))
        (of_bytes a, of_bytes b, of_bytes d)
unfolding read_three
three_blocks-Parses a b d ha hb hd =
    bind-Parses _ _ _ _ _ _ (read_qbytearray-Parses (of_bytes a) ha) (
      bind-Parses _ _ _ _ _ _ (read_qbytearray-Parses (of_bytes b) hb) (
        bind-Parses_last _ _ _ _ _ (read_qbytearray-Parses (of_bytes d) hd)
          (bind-Parses_last _ _ _ _ _ expect_stream_status-Parses (pure-Parses _))))

-- The key file of a client: a salt, the local key encrypted with the key of the passcode, and the
-- information about the accounts encrypted with the local key.
abbrev pub encrypted_key : Crypto → List ℕ → List ℕ → List ℕ → List ℕ
encrypted_key c passcode_bytes salt bs =
    sealed c (create_local_key c (of_bytes salt) (of_bytes passcode_bytes)) (plain (roomed bs))

abbrev pub encrypted_info : Crypto → List ℕ → List (ℕ × Client) → ℤ → List ℕ
encrypted_info c bs entries active =
    sealed c (generated_key bs) (plain (roomed (info_bytes entries active)))

abbrev pub key_file_bytes : Crypto → List ℕ → List ℕ → List ℕ → List (ℕ × Client) → ℤ → List ℕ
key_file_bytes c passcode_bytes salt bs entries active =
    qbytearray_bytes (of_bytes salt)
    ++ (qbytearray_bytes (of_bytes (encrypted_key c passcode_bytes salt bs))
        ++ qbytearray_bytes (of_bytes (encrypted_info c bs entries active)))

-- The client with what the key file holds, before its accounts are loaded.
abbrev pub with_keys : Crypto → List ℕ → List ℕ → TDesktop → TDesktop
with_keys c salt bs t = record t {
  accounts = [];
  app_version = some app_version;
  passcode_key = some (create_local_key c (of_bytes salt) (of_bytes t.passcode_bytes));
  local_key = some (generated_key bs);
  passcode_key_encrypted = of_bytes (encrypted_key c t.passcode_bytes salt bs);
  passcode_key_salt = of_bytes salt;
}

-- A disk from which a client can be loaded, with the entries of its accounts.
pub record HasClient (c : Crypto) (lenient : Bool) (disk : Disk)
    (passcode_bytes key_file salt bs : List ℕ) (entries : List (ℕ × Client)) (active : ℤ)
    : Type 0 where
  pub some_there : 0 < length entries
  pub at_most : length entries ≤ k_max_accounts
  pub loads : All (λ e. Loads c lenient disk (generated_key bs) key_file e.0 e.1) entries
  pub active_fits : IsInt32 active
  pub key_size : length bs ≡ 256
  pub salt_short : length salt < null_marker
  pub key_short : length (encrypted_key c passcode_bytes salt bs) < null_marker
  pub info_short : length (encrypted_info c bs entries active) < null_marker
  pub file_short : length (key_file_bytes c passcode_bytes salt bs entries active) < 2 ^ 32
  pub file_there :
      HasFile c
        (key_name key_file)
        (key_file_bytes c passcode_bytes salt bs entries active)
        disk.base

module _ (c : Crypto) (lenient : Bool) (disk : Disk) (salt bs : List ℕ)
    (entries : List (ℕ × Client)) (active : ℤ) (t : TDesktop) (laws : IsCrypto c)
    (h : HasClient c lenient disk t.passcode_bytes t.key_file salt bs entries active) where
  key_read : (from_stream generated (pos 0) (opened (roomed bs)).stream).0 ≡ ok (generated_key bs)
  key_read =
      ap (λ s. (from_stream generated (pos 0) s).0) (opened_stream (roomed bs) refl)
      ∙ ap (λ r. r.0)
          (rw (append-nil bs) at
            ((from_stream-generated bs h.key_size).at (frame read_only false) (header bs) []))

  load_key-entries :
      load_key c lenient disk app_version
        (
          of_bytes salt,
          of_bytes (encrypted_key c t.passcode_bytes salt bs),
          of_bytes (encrypted_info c bs entries active),
        )
        (record t { accounts = [] })
      ≡ (ok tt, with_active active (with_entries entries (with_keys c salt bs t)))
  unfolding load_key ◌>>=◌
  load_key-entries =
      rw
        (
          opened_payload c (create_local_key c (of_bytes salt) (of_bytes t.passcode_bytes)) bs laws
              (omega (arith, h.key_size)),
          key_read,
        )
        (load_info-entries c lenient disk (generated_key bs) entries active h.some_there h.at_most
          h.active_fits (with_keys c salt bs t) laws h.loads)

  blocks_read :
      (read_three (reloaded (key_file_bytes c t.passcode_bytes salt bs entries active)).stream).0
      ≡ ok (
        of_bytes salt,
        of_bytes (encrypted_key c t.passcode_bytes salt bs),
        of_bytes (encrypted_info c bs entries active),
      )
  blocks_read =
      let bytes = key_file_bytes c t.passcode_bytes salt bs entries active in
      ap (λ r. r.0)
        (rw (append-nil bytes) at (
          (three_blocks-Parses salt (encrypted_key c t.passcode_bytes salt bs)
              (encrypted_info c bs entries active) h.salt_short h.key_short h.info_short).at
            (frame read_only false) [] []))

  -- On a little-endian host, from a disk with the key file of one to six accounts, whose local key
  -- has 256 bytes and is encrypted with the key of the passcode, and with files from which each of
  -- the accounts starts loaded, a client loads those accounts in the order of the key file behind
  -- none, the salt, the keys and the version of the program, and takes the active index from the
  -- file and the main account by it; the salt and each encrypted part have fewer than 2 ^ 32 - 1
  -- bytes, the key file fewer than 2 ^ 32, and the active index 32 bits.
  pub load_from_tdata-HasClient :
      load_from_tdata c lenient disk t
      ≡ (ok tt, with_active active (with_entries entries (with_keys c salt bs t)))
  unfolding load_from_tdata ◌>>=◌
  load_from_tdata-HasClient =
      rw
        (
          read_file-HasFile c (key_name t.key_file) _ disk.base laws h.file_short h.file_there,
          blocks_read,
        )
        load_key-entries
