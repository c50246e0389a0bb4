-- ===== src/Local/Modes.antt =====
-- `LocalConnector::fileType` of src/connectors/local_unix.cpp, on the mode that `stat` gives.
use experimaestro.Prelude.{
  ℕ, ◌+◌, ◌*◌, ◌/◌, ◌%◌, ◌<◌, ◌≡◌, Bool, Option, none, some, ◌==◌, if◌then◌else◌, arith,
}
use experimaestro.Connector.{FileType, unexisting, file, directory, other}

-- The types of files of `sys/stat.h`.
pub data Kind : Type 0 where
  fifo character_device directory_kind block_device regular link socket : Kind

-- `S_IFIFO` and so on, in units of 2 ^ 12, below which the permissions stand.
unfoldable pub code_of : Kind → ℕ
code_of fifo = 1
code_of character_device = 2
code_of directory_kind = 4
code_of block_device = 6
code_of regular = 8
code_of link = 10
code_of socket = 12

-- `st_mode` of a file.
unfoldable pub mode : Kind → ℕ → ℕ
unfolding code_of
mode kind permissions = code_of kind * 4096 + permissions

-- `st_mode & S_IFDIR`, which has the bit 14, and `st_mode & S_IFREG`, which has the bit 15.
unfoldable pub has_bit : ℕ → ℕ → Bool
has_bit bit mode = (mode / bit) % 2 == 1

-- `fileType`, on what `stat` gives.
unfoldable pub file_type : Option ℕ → FileType
unfolding has_bit
file_type none = unexisting
file_type (some mode) =
    if has_bit 16384 mode then directory else if has_bit 32768 mode then file else other

-- What `fileType` gives for a file of each kind, whatever its permissions.
abbrev pub seen_as : Kind → FileType
seen_as directory_kind = directory
seen_as block_device = directory
seen_as socket = directory
seen_as regular = file
seen_as link = file
seen_as _ = other

-- `fileType` of a file with any permissions: besides the directories, it takes block devices and sockets
-- for directories, since their codes share the bit; a regular file is a file, and pipes and character
-- devices are other.
pub file_type-seen_as :
    (kind : Kind) (permissions : ℕ)
    → permissions < 4096
    → file_type (some (mode kind permissions)) ≡ seen_as kind
unfolding file_type has_bit mode code_of
file_type-seen_as fifo p h = ground arith
file_type-seen_as character_device p h = ground arith
file_type-seen_as directory_kind p h = ground arith
file_type-seen_as block_device p h = ground arith
file_type-seen_as regular p h = ground arith
file_type-seen_as link p h = ground arith
file_type-seen_as socket p h = ground arith
