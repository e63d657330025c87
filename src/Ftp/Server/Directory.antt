-- ===== src/Ftp/Server/Directory.antt =====
-- FTP/server.c: the functions that look at the file system.
pub mod Laws
use hyu_2021_network_protoco.Common.{
  ℕ, Bool, true, false, List, [], ◌∷◌, ◌++◌, Option, none, some, if◌then◌else◌, ltb, length, take,
  drop,
}
use hyu_2021_network_protoco.Clib.Text.{Text, text_eq}
use hyu_2021_network_protoco.Clib.Strtok.{first_token}
use hyu_2021_network_protoco.Ftp.Protocol.{max_buffer_size, max_relative_path_length, whitespaces}
use hyu_2021_network_protoco.Ftp.Server.State.{Files}

-- `strcat` (and `strcpy`, onto the empty text) into a buffer of `size` bytes; `none` is an overrun.
unfoldable pub strcat : ℕ → Text → Text → Option Text
strcat size s t = if ltb (length (s ++ t)) size then some (s ++ t) else none

-- What `validDirectoryEntry` comes to; `exits` is `handle_error("opendir")`, and `faults` the
-- `strcmp` with a NULL pointer.
pub data Lookup : Type 0 where
  found : Bool → Lookup
  exits faults : Lookup

-- The `readdir` loop, `found` so far: `if(strcmp(entry->d_name, entryToTest)) found = true;`
unfoldable pub scan_entries : Text → Bool → List Text → Bool
scan_entries test so_far [] = so_far
scan_entries test so_far (e ∷ es) = scan_entries test (if text_eq e test then so_far else true) es

unfoldable pub valid_directory_entry : Files → Text → Option Text → Lookup
valid_directory_entry files path test = elim (files.opendir path) [
  | none ↦ exits
  | some [] ↦ found false
  | some (e ∷ es) ↦ elim test [ none ↦ faults | some t ↦ found (scan_entries t false (e ∷ es)) ]
]

-- What `changeWorkingDirectory` comes to: NULL, or the new path.
pub data Change : Type 0 where
  refused : Change
  changed : Text → Change
  exits faults : Change

unfoldable pub change_working_directory : Files → Text → Text → Change
change_working_directory files path body =
    let dir_name : Option Text = first_token whitespaces body in
    elim (valid_directory_entry files path dir_name) [
      | found false ↦ refused
      | found true ↦ elim dir_name [
        | none ↦ Change.faults
        | some d ↦ elim (strcat max_relative_path_length path d) [
          | none ↦ Change.faults
          | some p ↦ changed p
        ]
      ]
      | exits ↦ Change.exits
      | faults ↦ Change.faults
    ]

-- The `readdir` loop of `getDirectoryEntries`: a bar and the name, for each entry.
unfoldable pub list_entries : Text → List Text → Option Text
list_entries entries [] = some entries
list_entries entries (e ∷ es) = elim (strcat max_buffer_size entries (b'|' ∷ e)) [
  | none ↦ none
  | some entries' ↦ list_entries entries' es
]

-- `getDirectoryEntries`; `none` is an overrun of `entries`.
unfoldable pub get_directory_entries : Files → Text → Option Text
get_directory_entries files path = elim (files.opendir path) [
  | none ↦ some []
  | some names ↦ list_entries [] names
]

-- What `getStreamFromFile` returns: NULL, or a block of `MAX_BUFFER_SIZE` bytes.
pub data Stream : Type 0 where
  null : Stream
  block : List ℕ → Stream
  faults : Stream

-- `fread` of at most `size` bytes over the start of a block from `malloc`.
unfoldable pub fread : ℕ → List ℕ → List ℕ → List ℕ
fread size contents memory = take size contents ++ drop (length (take size contents)) memory

-- `memory` is what the block of `malloc` holds beforehand.
unfoldable pub get_stream_from_file : Files → List ℕ → Text → Option Text → Stream
get_stream_from_file files memory path name = elim name [
  | none ↦ Stream.faults
  | some n ↦ elim (strcat max_relative_path_length path n) [
    | none ↦ Stream.faults
    | some file_path ↦ elim (files.fopen file_path) [
      | none ↦ null
      | some contents ↦ block (fread max_buffer_size contents memory)
    ]
  ]
]
