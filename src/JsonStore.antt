-- ===== src/JsonStore.antt =====
-- canary-agent-store-json/src/store.rs: the threads and caches of a directory, one file for each. tokio's files and
-- serde's texts are parameters.
pub mod Commits
pub mod Replaced
pub mod Committed
pub mod Revisions
use canary_agent.Prelude.{
  ℕ, suc, zero, ◌+◌, ◌*◌, ◌/◌, ◌%◌, ◌^◌, String, Bool, true, false, ◌||◌, ◌==◌, Option, none, some,
  List, [], ◌∷◌, length, eqb, if◌then◌else◌, contains_char,
}
use canary_agent.Prelude.Equality.{same}
use canary_agent.Prelude.Result.{Result as Fallible, ok, err}
use canary_agent.Kernel.Clock.{Clock, Timed, new_id}
use canary_agent.Kernel.Events.{RevisionToken, Thread, new_thread, touch, saturating_add}
use canary_agent.Runtime.Error.{
  AgentError, Result, io, json, thread_not_found, invalid_thread_id, invalid_revision,
  revision_conflict,
}
use canary_agent.Runtime.Exec.{Exec, ◌>>=◌, ◌>>◌, pure, raise, lift}
use canary_agent.Runtime.Context.{ThreadContextCache}
use canary_agent.Runtime.Agent.{LeaseFence}
use native.Mathlib.Decide.{ℕ_discrete}

-- The names of the files: "threads/{id}.json", "context-cache/{id}.json", and the first of a thread or a cache with
-- the extension "json.{write}.tmp". They differ, since an id has no '/'.
pub data FilePath : Type 0 where
  thread_path context_cache_path : String → FilePath
  temporary_path : FilePath → String → FilePath

pub data IoError : Type 0 where
  not_found other : String → IoError

-- Files that the store works on, in the directory that it owns.
pub record Files (W : Type 0) : Type 0 where
  pub read_to_string : FilePath → W → Fallible IoError String × W
  pub create_parent : FilePath → W → Fallible IoError Unit × W
  pub write : FilePath → String → W → Fallible IoError Unit × W
  pub rename : FilePath → FilePath → W → Fallible IoError Unit × W
  pub remove_file : FilePath → W → Fallible IoError Unit × W

pub record Texts : Type 0 where
  pub thread_to_text : Thread → Fallible String String
  pub thread_from_text : String → Fallible String Thread
  pub cache_to_text : ThreadContextCache → Fallible String String
  pub cache_from_text : String → Fallible String ThreadContextCache

pub record Disk (W : Type 0) : Type 0 where
  pub world : W
  pub clock : Clock

-- `u64::to_be_bytes`, of so many bytes
unfoldable pub to_be_bytes : ℕ → ℕ → List ℕ
to_be_bytes zero n = []
to_be_bytes (suc k) n = n / 256 ^ k % 256 ∷ to_be_bytes k n

-- `u64::from_be_bytes`
unfoldable pub from_be_bytes : List ℕ → ℕ
from_be_bytes [] = 0
from_be_bytes (b ∷ bs) = b * 256 ^ length bs + from_be_bytes bs

unfoldable pub from_u64 : ℕ → RevisionToken
unfolding to_be_bytes
from_u64 value = record { bytes = to_be_bytes 8 value }

abbrev pub checked_revision : List ℕ → Result ℕ
unfolding from_be_bytes
checked_revision [] = ok 0
checked_revision (b ∷ bs) =
    if eqb (length (b ∷ bs)) 8 then ok (from_be_bytes (b ∷ bs)) else err invalid_revision

unfoldable pub numeric_revision : RevisionToken → Result ℕ
unfolding checked_revision
numeric_revision revision = checked_revision revision.bytes

unfoldable pub RevisionToken-discrete : Discrete RevisionToken
RevisionToken-discrete = hlevel ℕ_discrete

unfoldable pub validate_thread_id : String → Result Unit
unfolding contains_char
validate_thread_id id =
    if id == "" || id == "." || id == ".." || contains_char 0x2F id || contains_char 0x5C id
    then err (invalid_thread_id id)
    else ok tt

-- `From<std::io::Error>` and `From<serde_json::Error>`
abbrev pub from_io : {A : Type 0} → Fallible IoError A → Result A
from_io (ok a) = ok a
from_io (err (not_found message)) = err (io message)
from_io (err (other message)) = err (io message)

abbrev pub from_json : {A : Type 0} → Fallible String A → Result A
from_json (ok a) = ok a
from_json (err message) = err (json message)

module _ {W : Type 0} (files : Files W) (texts : Texts) where
  abbrev pub on_files :
      {A : Type 0} → (W → Fallible IoError A × W) → Disk W → Fallible IoError A × Disk W
  on_files m disk = let (r, w) = m disk.world in (r, record disk { world = w })

  unfoldable pub attempt : {A : Type 0} → (W → Fallible IoError A × W) → Exec (Disk W) A
  attempt m disk = let (r, disk') = on_files m disk in (from_io r, disk')

  unfoldable pub timed : {A : Type 0} → Timed A → Exec (Disk W) A
  timed m disk = let (a, clock) = m disk.clock in (ok a, record disk { clock = clock })

  abbrev pub loaded : String → Fallible IoError String → Result Thread
  loaded id (ok raw) = from_json (texts.thread_from_text raw)
  loaded id (err (not_found message)) = err (thread_not_found id)
  loaded id (err (other message)) = err (io message)

  unfoldable pub load : String → Exec (Disk W) Thread
  unfolding ◌>>=◌ validate_thread_id
  load id = do
    lift (validate_thread_id id)
    λ disk.
        let (r, disk') = on_files (files.read_to_string (thread_path id)) disk in
        (loaded id r, disk')

  -- A text goes to a temporary file that is then renamed, for `write_thread` and `write_context_cache`.
  unfoldable pub replace : FilePath → String → String → Exec (Disk W) Unit
  unfolding ◌>>=◌ attempt timed new_id
  replace path raw prefix = do
    write_id ← timed (new_id prefix)
    attempt (files.write (temporary_path path write_id) raw)
    attempt (files.rename (temporary_path path write_id) path)

  unfoldable pub write_thread : Thread → Exec (Disk W) Unit
  unfolding ◌>>=◌ attempt replace
  write_thread thread = do
    attempt (files.create_parent (thread_path thread.id))
    raw ← lift (from_json (texts.thread_to_text thread))
    replace (thread_path thread.id) raw "write"

  unfoldable pub write_context_cache : ThreadContextCache → Exec (Disk W) Unit
  unfolding ◌>>=◌ attempt replace
  write_context_cache cache = do
    attempt (files.create_parent (context_cache_path cache.thread_id))
    raw ← lift (from_json (texts.cache_to_text cache))
    replace (context_cache_path cache.thread_id) raw "cache"

  -- The stored thread, or a new one where there is none.
  abbrev pub or_new : String → Result Thread → Exec (Disk W) Thread
  unfolding timed new_thread
  or_new id (ok current) = pure current
  or_new id (err (thread_not_found missing)) = timed (new_thread id)
  or_new id (err e) = raise e

  unfoldable pub current_thread : String → Exec (Disk W) Thread
  unfolding load or_new
  current_thread id disk = let (r, disk') = load id disk in or_new id r disk'

  unfoldable pub commit_thread : Thread → Exec (Disk W) Thread
  unfolding ◌>>=◌ validate_thread_id current_thread same numeric_revision from_u64 saturating_add
      timed touch write_thread
  commit_thread thread = do
    lift (validate_thread_id thread.id)
    current ← current_thread thread.id
    if same RevisionToken-discrete current.revision thread.revision
        then pure tt
        else raise (revision_conflict thread.id thread.revision current.revision)
    current_number ← lift (numeric_revision thread.revision)
    thread ← timed (touch (record thread { revision = from_u64 (saturating_add current_number 1) }))
    write_thread thread
    pure thread

  unfoldable pub compare_and_commit : Thread → LeaseFence → Exec (Disk W) Thread
  unfolding commit_thread
  compare_and_commit thread fence = commit_thread thread

  abbrev pub unless_missing : Result Unit → Fallible IoError Unit → Result Unit
  unless_missing absent (ok done) = ok tt
  unless_missing absent (err (not_found message)) = absent
  unless_missing absent (err (other message)) = err (io message)

  unfoldable pub delete : String → Exec (Disk W) Unit
  unfolding ◌>>=◌ validate_thread_id
  delete id = do
    lift (validate_thread_id id)
    (λ disk.
        let (r, disk') = on_files (files.remove_file (context_cache_path id)) disk in
        (unless_missing (ok tt) r, disk'))
    λ disk.
        let (r, disk') = on_files (files.remove_file (thread_path id)) disk in
        (unless_missing (err (thread_not_found id)) r, disk')

  abbrev pub loaded_cache : Fallible IoError String → Result (Option ThreadContextCache)
  loaded_cache (ok raw) = elim (texts.cache_from_text raw) [
    | ok cache ↦ ok (some cache)
    | err message ↦ err (json message)
  ]
  loaded_cache (err (not_found message)) = ok none
  loaded_cache (err (other message)) = err (io message)

  unfoldable pub load_context_cache : String → Exec (Disk W) (Option ThreadContextCache)
  unfolding ◌>>=◌ validate_thread_id
  load_context_cache id = do
    lift (validate_thread_id id)
    λ disk.
        let (r, disk') = on_files (files.read_to_string (context_cache_path id)) disk in
        (loaded_cache r, disk')

  unfoldable pub save_context_cache : ThreadContextCache → Exec (Disk W) ThreadContextCache
  unfolding ◌>>=◌ validate_thread_id write_context_cache
  save_context_cache cache = do
    lift (validate_thread_id cache.thread_id)
    write_context_cache cache
    pure cache
