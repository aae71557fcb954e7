-- ===== src/TDesktop/Missing.antt =====
-- A load from a folder without a key file.
use opentele.Prelude.{ℕ, ◌≡◌, refl, none, Bool, List, [], All}
use opentele.Exception.{err, t_file_not_found}
use opentele.Exec.{◌>>=◌}
use opentele.Crypto.{Crypto}
use opentele.Storage.File.{Folder, with_suffix, suffixes}
use opentele.Storage.File.Read.{try_file, read_tries, read_file}
use opentele.StorageAccount.{Disk}
use opentele.TDesktop.{TDesktop}
use opentele.TDesktop.Load.{key_name, load_from_tdata}

-- No file of that name, with any of its suffixes
abbrev pub IsMissing : List ℕ → Folder → Type 0
IsMissing name folder = All (λ chr. folder.files (with_suffix name chr) ≡ none) suffixes

read_file-IsMissing :
    (c : Crypto) (name : List ℕ) (folder : Folder)
    → IsMissing name folder
    → read_file c name folder ≡ err t_file_not_found
unfolding read_file read_tries try_file
read_file-IsMissing c name folder h = rw (h.0, h.1.0, h.1.1.0) refl

-- Where a folder has no key file of the name, with none of the suffixes, a load raises
-- `TFileNotFound`; the accounts that the client had are gone, and all else in it, also whether it
-- counts as loaded, stays as it was.
pub load_from_tdata-IsMissing :
    (c : Crypto) (lenient : Bool) (disk : Disk) (t : TDesktop)
    → IsMissing (key_name t.key_file) disk.base
    → load_from_tdata c lenient disk t ≡ (err t_file_not_found, record t { accounts = [] })
unfolding load_from_tdata ◌>>=◌
load_from_tdata-IsMissing c lenient disk t h =
    rw (read_file-IsMissing c (key_name t.key_file) disk.base h) refl
