-- ===== src/Persistence/Disk.antt =====
-- `save`: the calls of the file system that it makes, in their order.
use cache_x.Base.{
  ℕ, List, [], ◌∷◌, ◌++◌, map, Option, none, some, Bytes, codes, bytes_eq, Bool, true, false,
  if◌then◌else◌, length,
}
use cache_x.Sharded
use cache_x.Sharded.{ShardedCache}
use cache_x.Persistence.File.{render}

-- The files: a path and what is in the file.
abbrev pub Disk : Type 0
Disk = Bytes → Option Bytes

abbrev pub put : Bytes → Option Bytes → Disk → Disk
put path file d = λ p. if bytes_eq path p then file else d p

abbrev pub or_empty : Option Bytes → Bytes
or_empty none = []
or_empty (some file) = file

-- Whether the file can be opened for reading.
unfoldable pub exists : Bytes → Disk → Bool
exists path d = elim (d path) [ none ↦ false | some _ ↦ true ]

pub data Call : Type 0 where
  create : Bytes → Call
  write : Bytes → Bytes → Call
  remove : Bytes → Call
  rename : Bytes → Bytes → Call

-- A call that does what it is asked to.
unfoldable pub perform : Call → Disk → Disk
perform (create path) d = put path (some []) d
perform (write path bytes) d = put path (some (or_empty (d path) ++ bytes)) d
perform (remove path) d = put path none d
perform (rename from to) d = if bytes_eq from to then d else put from none (put to (d from) d)

unfoldable pub perform_all : List Call → Disk → Disk
unfolding perform
perform_all [] d = d
perform_all (call ∷ calls) d = perform_all calls (perform call d)

pub record SaveResult : Type 0 where
  pub ok : Bool
  pub entries : ℕ
  pub bytes : ℕ
  pub error : Bytes

abbrev pub fresh_result : SaveResult
fresh_result = record { ok = false; entries = 0; bytes = 0; error = [] }

-- What the operating system answers: whether the file can be opened, the pieces of the text that
-- are written, whether the file can be renamed, and the text of `strerror` if not.
pub record Answers : Type 0 where
  pub temp_path : Bytes
  pub opens : Bool
  pub pieces : List Bytes
  pub renames : Bool
  pub reason : Bytes

unfoldable pub joined : List Bytes → Bytes
joined [] = []
joined (piece ∷ pieces) = piece ++ joined pieces

-- The stream is good after the flush if all of the text is written.
unfoldable pub written : Answers → Bytes → Bool
unfolding joined bytes_eq
written answers text = bytes_eq (joined answers.pieces) text

unfoldable pub finish_save : Answers → Bytes → ℕ → Bytes → SaveResult × List Call
unfolding written
finish_save answers path entries text =
    if written answers text
    then (if answers.renames
        then (
          record fresh_result { ok = true; entries = entries; bytes = length text },
          rename answers.temp_path path ∷ [],
        )
        else (
          record fresh_result {
            bytes = length text;
            error = codes "cannot rename snapshot into place: " ++ answers.reason;
          },
          remove answers.temp_path ∷ [],
        ))
    else (
      record fresh_result { error = codes "write failed (disk full?)" },
      remove answers.temp_path ∷ [],
    )

unfoldable pub save_text : Answers → Bytes → ℕ → Bytes → SaveResult × List Call
unfolding finish_save
save_text answers path entries text =
    let (result, calls) = finish_save answers path entries text in
    if answers.opens
    then (result, create answers.temp_path ∷ map (write answers.temp_path) answers.pieces ++ calls)
    else (
      record fresh_result {
        error = codes "cannot open '" ++ answers.temp_path ++ codes "' for writing";
      },
      [],
    )

-- `save`, with the instants at which the shards are read and the wall clock.
unfoldable pub save : Answers → ℕ → (ℕ → ℕ) → Bytes → ShardedCache → SaveResult × List Call
unfolding save_text
save answers wall_clock clock path cache =
    let entries = Sharded.export_entries clock cache in
    save_text answers path (length entries) (render wall_clock entries)
