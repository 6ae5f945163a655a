-- ===== src/Tests/Directory.antt =====
-- Files in memory, with a thread in one of them, for canary-agent-store-json/src/store.rs.
use mathlib.Core.Path.{subst}
use canary_agent.Prelude.{
  ◌≡◌, ◌≢◌, refl, sym, ◌∙◌, ap, String, Bool, true, false, Option, none, some, [], arith, concat,
  show, if◌then◌else◌,
}
use canary_agent.Prelude.Equality.{same, same→eq, same_self, String-discrete}
use canary_agent.Prelude.Result.{Result, ok, err}
use canary_agent.Prelude.Atomic.{AllOrNothing}
use canary_agent.Kernel.Clock.{now_timestamp}
use canary_agent.Kernel.Value.{null}
use canary_agent.Kernel.Events.{Thread, initial, no_usage}
use canary_agent.JsonStore.{
  FilePath, thread_path, IoError, not_found, Files, Texts, Disk, numeric_revision, from_u64,
  RevisionToken-discrete, commit_thread, load,
}
use canary_agent.JsonStore.Commits.{AreFiles, kept_content, commit_thread-AllOrNothing}
use canary_agent.JsonStore.Committed.{IsCommitted, commit_thread-IsCommitted, load-commit_thread}
use canary_agent.JsonStore.Revisions.{numeric_revision-from_u64}

abbrev Directory : Type 0
Directory = FilePath → Option String

unfoldable FilePath-discrete : Discrete FilePath
FilePath-discrete = hlevel String-discrete

unfoldable put : FilePath → Option String → Directory → Directory
unfolding same
put path text directory p = if same FilePath-discrete path p then text else directory p

abbrev read_text : Option String → Directory → Result IoError String × Directory
read_text none directory = (err (not_found "no such file"), directory)
read_text (some raw) directory = (ok raw, directory)

abbrev rename_text :
    FilePath → FilePath → Option String → Directory → Result IoError Unit × Directory
rename_text from to none directory = (err (not_found "no such file"), directory)
rename_text from to (some raw) directory = (ok tt, put to (some raw) (put from none directory))

unfoldable files : Files Directory
unfolding put
files = record {
  read_to_string = λ path directory. read_text (directory path) directory;
  create_parent = λ path directory. (ok tt, directory);
  write = λ path raw directory. (ok tt, put path (some raw) directory);
  rename = λ from to directory. rename_text from to (directory from) directory;
  remove_file = λ path directory. (ok tt, put path none directory);
}

put_same :
    (path : FilePath) (text : Option String) (directory : Directory)
    → put path text directory path ≡ text
unfolding put
put_same path text directory = rw (same_self FilePath-discrete path) refl

put_other :
    (path p : FilePath) (text : Option String) (directory : Directory)
    → p ≢ path
    → put path text directory p ≡ directory p
unfolding put
put_other path p text directory apart = by_case (same FilePath-discrete path p) refl
  where
    by_case :
        (b : Bool)
        → same FilePath-discrete path p ≡ b
        → (if b then text else directory p) ≡ directory p
    by_case true e = absurd (apart (sym (same→eq FilePath-discrete path p e)))
    by_case false e = refl

abbrev Reads : Directory → FilePath → Result IoError String → Directory → Type 0
Reads w path result w' =
    ((p : FilePath) → w' p ≡ w p)
    × ((raw : String) → result ≡ ok raw → w path ≡ some raw)
    × ((message : String) → result ≡ err (not_found message) → w path ≡ none)

read_text-Reads :
    (w : Directory) (path : FilePath) (text : Option String)
    → w path ≡ text
    → Reads w path (read_text text w).0 (read_text text w).1
read_text-Reads w path none e = (λ p. refl, λ raw h. cc, λ message h. e)
read_text-Reads w path (some raw) e =
    (λ p. refl, λ raw' h. e ∙ (let equal : raw ≡ raw' = cc in ap some equal), λ message h. cc)

abbrev Renames : Directory → FilePath → FilePath → Directory → Type 0
Renames w from to w' = (w' to ≡ w from) × ((p : FilePath) → p ≢ from → p ≢ to → w' p ≡ w p)

rename_text-Renames :
    (w : Directory) (from to : FilePath) (text : Option String)
    → w from ≡ text
    → (rename_text from to text w).0 ≡ ok tt
    → Renames w from to (rename_text from to text w).1
rename_text-Renames w from to none e h = cc
rename_text-Renames w from to (some raw) e h = (
  put_same to (some raw) (put from none w) ∙ sym e,
  λ p not_from not_to.
      put_other to p (some raw) (put from none w) not_to ∙ put_other from p none w not_from,
)

rename_text_fails :
    (w : Directory) (from to : FilePath) (text : Option String) {e : IoError}
    → (rename_text from to text w).0 ≡ err e
    → (p : FilePath) → (rename_text from to text w).1 p ≡ w p
rename_text_fails w from to none h p = refl
rename_text_fails w from to (some raw) h p = cc

files-AreFiles : AreFiles files
unfolding files
files-AreFiles = record {
  content = λ w. w;
  read = λ w path result w' h.
      subst (λ r. Reads w path r.0 r.1) h (read_text-Reads w path (w path) refl);
  created = λ w path p. refl;
  written = λ w path raw result w' h.
      subst (λ r. ((p : FilePath) → p ≢ path → r.1 p ≡ w p) × (r.0 ≡ ok tt → r.1 path ≡ some raw)) h
        (λ p apart. put_other path p (some raw) w apart, λ _. put_same path (some raw) w);
  renamed = λ w from to w' h.
      subst (λ r. Renames w from to r.1) h
        (rename_text-Renames w from to (w from) refl (ap (λ r. r.0) h));
  not_renamed = λ w from to e w' h.
      subst (λ r. (p : FilePath) → r.1 p ≡ w p) h
        (rename_text_fails w from to (w from) (ap (λ r. r.0) h));
}

abbrev thread : Thread
thread = record {
  schema_version = 1;
  revision = initial;
  id = "thread";
  metadata = null;
  turns = [];
  token_usage = no_usage;
  created_at = "0";
  updated_at = "0";
}

unfoldable committed : Thread
unfolding from_u64
committed = record thread { revision = from_u64 1; updated_at = "7" }

abbrev texts : Texts
texts = record {
  thread_to_text = λ t. ok "the thread";
  thread_from_text = λ raw. ok committed;
  cache_to_text = λ c. err "unused";
  cache_from_text = λ raw. err "unused";
}

abbrev disk : Disk Directory
disk = record {
  world = λ path. none;
  clock = record { millis = λ k. 7000; reads = 0; counter = 0 };
}

unfoldable after : Disk Directory
unfolding commit_thread files
after = (commit_thread files texts thread disk).1

run : commit_thread files texts thread disk ≡ (ok committed, after)
unfolding after committed commit_thread files RevisionToken-discrete FilePath-discrete
    String-discrete concat show now_timestamp
run = refl

commit_thread-IsCommitted_example : IsCommitted files-AreFiles texts thread disk after committed
commit_thread-IsCommitted_example = commit_thread-IsCommitted files-AreFiles texts thread disk run

commit_thread-AllOrNothing_example :
    AllOrNothing (kept_content files-AreFiles texts) (commit_thread files texts thread)
commit_thread-AllOrNothing_example = commit_thread-AllOrNothing files-AreFiles texts thread

read_back :
    (text : String)
    → texts.thread_to_text committed ≡ ok text
    → texts.thread_from_text text ≡ ok committed
read_back text e = refl

found : files.read_to_string (thread_path "thread") after.world ≡ (ok "the thread", after.world)
unfolding after commit_thread files FilePath-discrete String-discrete RevisionToken-discrete concat
    show now_timestamp
found = refl

load-commit_thread_example : load files texts "thread" after ≡ (ok committed, after)
load-commit_thread_example = load-commit_thread files-AreFiles texts thread disk run read_back found

numeric_revision-from_u64_example : numeric_revision (from_u64 258) ≡ ok 258
numeric_revision-from_u64_example = numeric_revision-from_u64 258 (omega arith)
