-- ===== src/JsonStore/Commits.antt =====
-- What commits of canary-agent-store-json/src/store.rs do to the files of threads and caches.
use canary_agent.Prelude.{String, Option, none, some, ◌≡◌, ◌≢◌, refl, ◌∙◌}
use canary_agent.Prelude.Equality.{same}
use canary_agent.Prelude.Result.{Result as Fallible, ok, err}
use canary_agent.Prelude.Atomic.{
  Quiet, AllOrNothing, >>=-Quiet, >>=-AllOrNothing, >>=-pure-AllOrNothing, lift-Quiet, test-Quiet,
}
use canary_agent.Kernel.Clock.{Timed, new_id}
use canary_agent.Kernel.Events.{Thread}
use canary_agent.Runtime.Error.{AgentError, Result, thread_not_found}
use canary_agent.JsonStore.{
  FilePath, thread_path, context_cache_path, temporary_path, IoError, not_found, Files, Texts, Disk,
  RevisionToken-discrete, attempt, timed, load, loaded, replace, write_thread, or_new,
  current_thread, commit_thread, from_io,
}

-- What files promise: reading changes none, writing changes one, and renaming puts one in the place of another or
-- changes none.
pub record AreFiles {W : Type 0} (files : Files W) : Type 0 where
  pub content : W → FilePath → Option String
  pub read :
      (w : W) (path : FilePath) (result : Fallible IoError String) (w' : W)
      → files.read_to_string path w ≡ (result, w')
      → ((p : FilePath) → content w' p ≡ content w p)
        × ((raw : String) → result ≡ ok raw → content w path ≡ some raw)
        × ((message : String) → result ≡ err (not_found message) → content w path ≡ none)
  pub created :
      (w : W) (path : FilePath) (p : FilePath)
      → content (files.create_parent path w).1 p ≡ content w p
  pub written :
      (w : W) (path : FilePath) (raw : String) (result : Fallible IoError Unit) (w' : W)
      → files.write path raw w ≡ (result, w')
      → ((p : FilePath) → p ≢ path → content w' p ≡ content w p)
        × (result ≡ ok tt → content w' path ≡ some raw)
  pub renamed :
      (w : W) (from to : FilePath) (w' : W)
      → files.rename from to w ≡ (ok tt, w')
      → (content w' to ≡ content w from)
        × ((p : FilePath) → p ≢ from → p ≢ to → content w' p ≡ content w p)
  pub not_renamed :
      (w : W) (from to : FilePath) (e : IoError) (w' : W)
      → files.rename from to w ≡ (err e, w')
      → (p : FilePath) → content w' p ≡ content w p

-- The file of a thread or of its cache.
pub data Kept : Type 0 where
  of_thread of_cache : String → Kept

abbrev pub path_of : Kept → FilePath
path_of (of_thread id) = thread_path id
path_of (of_cache id) = context_cache_path id

pub path_of-apart :
    (kept : Kept) (path : FilePath) (id : String) → path_of kept ≢ temporary_path path id
path_of-apart (of_thread t) path id e = cc
path_of-apart (of_cache t) path id e = cc

module _ {W : Type 0} {files : Files W} (laws : AreFiles files) (texts : Texts) where
  abbrev pub kept_content : Disk W → Kept → Option String
  kept_content disk kept = laws.content disk.world (path_of kept)

  read-Quiet :
      {A : Type 0} (path : FilePath) (f : Fallible IoError String → Result A)
      → Quiet kept_content (λ disk. (
        f (files.read_to_string path disk.world).0,
        record disk { world = (files.read_to_string path disk.world).1 },
      ))
  read-Quiet path f = record {
    quiet = λ disk kept. (laws.read disk.world path _ _ refl).0 (path_of kept);
  }

  timed-Quiet : {A : Type 0} (m : Timed A) → Quiet kept_content (timed files texts m)
  unfolding timed
  timed-Quiet m = record { quiet = λ disk kept. refl }

  pub create-Quiet :
      (path : FilePath) → Quiet kept_content (attempt files texts (files.create_parent path))
  unfolding attempt
  create-Quiet path = record { quiet = λ disk kept. laws.created disk.world path (path_of kept) }

  pub write-Quiet :
      (path : FilePath) (write_id raw : String)
      → Quiet kept_content (attempt files texts (files.write (temporary_path path write_id) raw))
  unfolding attempt
  write-Quiet path write_id raw = record {
    quiet = λ disk kept.
        (laws.written disk.world (temporary_path path write_id) raw _ _ refl).0 (path_of kept)
          (path_of-apart kept path write_id);
  }

  rename-AllOrNothing :
      (from to : FilePath) → AllOrNothing kept_content (attempt files texts (files.rename from to))
  unfolding attempt
  rename-AllOrNothing from to = record {
    nothing = λ disk e h. by_case disk (files.rename from to disk.world) e refl h;
  }
    where
      by_case :
          (disk : Disk W) (p : Fallible IoError Unit × W) (e : AgentError)
          → files.rename from to disk.world ≡ p
          → from_io p.0 ≡ err e
          → (kept : Kept) → laws.content p.1 (path_of kept) ≡ laws.content disk.world (path_of kept)
      by_case disk (ok x, w) e run h kept = cc
      by_case disk (err x, w) e run h kept =
          laws.not_renamed disk.world from to x w run (path_of kept)

  load-Quiet : (id : String) → Quiet kept_content (load files texts id)
  unfolding load
  load-Quiet id =
      >>=-Quiet _ _ (lift-Quiet _) (λ _. read-Quiet (thread_path id) (loaded files texts id))

  pub current_thread-Quiet : (id : String) → Quiet kept_content (current_thread files texts id)
  unfolding current_thread or_new
  current_thread-Quiet id = record {
    quiet = λ disk kept.
        (or_new-Quiet (load files texts id disk).0).quiet (load files texts id disk).1 kept
        ∙ (load-Quiet id).quiet disk kept;
  }
    where
      or_new-Quiet : (r : Result Thread) → Quiet kept_content (or_new files texts id r)
      or_new-Quiet (ok thread) = lift-Quiet _
      or_new-Quiet (err (thread_not_found missing)) = timed-Quiet _
      or_new-Quiet (err e) = lift-Quiet _

  replace-AllOrNothing :
      (path : FilePath) (raw prefix : String)
      → AllOrNothing kept_content (replace files texts path raw prefix)
  unfolding replace
  replace-AllOrNothing path raw prefix =
      >>=-AllOrNothing _ _ (timed-Quiet (new_id prefix)) λ write_id.
        >>=-AllOrNothing _ _ (write-Quiet path write_id raw)
          λ _. rename-AllOrNothing (temporary_path path write_id) path

  write_thread-AllOrNothing :
      (thread : Thread) → AllOrNothing kept_content (write_thread files texts thread)
  unfolding write_thread
  write_thread-AllOrNothing thread =
      >>=-AllOrNothing _ _ (create-Quiet (thread_path thread.id)) λ _.
        >>=-AllOrNothing _ _ (lift-Quiet _)
          λ raw. replace-AllOrNothing (thread_path thread.id) raw "write"

  -- A commit that gives an error leaves the file of every thread and of every cache as it was, if files behave
  -- as files.
  pub commit_thread-AllOrNothing :
      (thread : Thread) → AllOrNothing kept_content (commit_thread files texts thread)
  unfolding commit_thread
  commit_thread-AllOrNothing thread = >>=-AllOrNothing _ _ (lift-Quiet _) λ _.
      >>=-AllOrNothing _ _ (current_thread-Quiet thread.id) λ current.
        >>=-AllOrNothing _ _
          (test-Quiet (same RevisionToken-discrete current.revision thread.revision) (ok tt) _)
          λ _. >>=-AllOrNothing _ _ (lift-Quiet _) λ number.
            >>=-AllOrNothing _ _ (timed-Quiet _) λ thread.
              >>=-pure-AllOrNothing (write_thread files texts thread) (λ _. thread)
                (write_thread-AllOrNothing thread)
