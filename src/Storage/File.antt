-- ===== src/Storage/File.antt =====
-- `WriteFile` and the files that `FileWriteDescriptor` writes and `ReadFile` reads, of
-- src/td/storage.py. A folder maps the names of its files to their contents, and refuses to open
-- some of them for writing.
pub mod Write
pub mod Read
pub mod RoundTrip
pub mod Reload
use opentele.Prelude.{ℕ, Bool, Option, none, some, List, [], ◌∷◌, ◌++◌, beq_list, if◌then◌else◌}
use opentele.Exception.{Result, ok, err, open_tele_exception}
use opentele.Bytes.{little_endian}

pub record Folder : Type 0 where
  pub files : List ℕ → Option (List ℕ)
  pub is_writable : List ℕ → Bool

-- `APP_VERSION`
abbrev pub app_version : ℕ
app_version = 3004000

-- `TDF_MAGIC`, the bytes of "TDF$"
abbrev pub tdf_magic : List ℕ
tdf_magic = 84 ∷ 68 ∷ 70 ∷ 36 ∷ []

-- The characters "s", "1" and "0" that a name may end with.
abbrev pub suffix_s : ℕ
suffix_s = 115

abbrev pub suffixes : List ℕ
suffixes = suffix_s ∷ 49 ∷ 48 ∷ []

-- `fileName + chr`
abbrev pub with_suffix : List ℕ → ℕ → List ℕ
with_suffix name chr = name ++ chr ∷ []

-- The folder with a file of that content, whatever it held before.
unfoldable pub put : List ℕ → List ℕ → Folder → Folder
put name content folder = record folder {
  files = λ other. if beq_list other name then some content else folder.files other;
}

-- `WriteFile`
unfoldable pub write_file : List ℕ → List ℕ → Folder → Result Folder
unfolding put
write_file name content folder =
    if folder.is_writable (with_suffix name suffix_s)
    then ok (
        put (with_suffix name suffix_s) (tdf_magic ++ (little_endian 4 app_version ++ content))
          folder)
    else err open_tele_exception
