-- ===== src/JsonStore/Committed.antt =====
-- What a commit of canary-agent-store-json/src/store.rs that succeeds leaves.
use mathlib.Core.Path.{subst}
use canary_agent.Prelude.{ℕ, String, none, some, ◌≡◌, ◌≢◌, refl, sym, ◌∙◌, ap, if◌then◌else◌}
use canary_agent.Prelude.Equality.{same, same→eq}
use canary_agent.Prelude.Result.{Result as Fallible, ok, err, ok_inj}
use canary_agent.Kernel.Events.{RevisionToken, Thread, new_thread, touch, saturating_add, initial}
use canary_agent.Runtime.Error.{Result}
use canary_agent.Runtime.Exec.{◌>>=◌, pure, raise, lift, from_bind, continue}
use canary_agent.Runtime.Agent.{Agent, LeaseFence}
use canary_agent.Runtime.Agent.View.{KeepsTurns}
use canary_agent.JsonStore.{
  compare_and_commit, thread_path, IoError, not_found, other, Files, Texts, Disk, numeric_revision,
  RevisionToken-discrete, from_u64, validate_thread_id, timed, load, loaded, write_thread, or_new,
  current_thread, commit_thread, from_json,
}
use canary_agent.JsonStore.Replaced.{touch-Touched, write_thread-Written, passed, thread_path-apart}
use canary_agent.JsonStore.Commits.{
  AreFiles, Kept, of_thread, path_of, kept_content, current_thread-Quiet,
}

module _ {W : Type 0} {files : Files W} (laws : AreFiles files) (texts : Texts) where
  -- The directory holds this revision of a thread: the initial one where it has no file of the thread.
  pub data Holds (disk : Disk W) (id : String) : RevisionToken → Type 0 where
    in_file :
        (raw : String) (current : Thread)
        → kept_content laws texts disk (of_thread id) ≡ some raw
        → texts.thread_from_text raw ≡ ok current
        → Holds disk id current.revision
    no_file : kept_content laws texts disk (of_thread id) ≡ none → Holds disk id initial

  pub record IsCommitted (thread : Thread) (disk disk' : Disk W) (committed : Thread) : Type 0 where
    pub valid : validate_thread_id thread.id ≡ ok tt
    pub same_turns : committed.turns ≡ thread.turns
    pub same_id : committed.id ≡ thread.id
    pub expected : Holds disk thread.id thread.revision
    pub number : ℕ
    pub numbered : numeric_revision thread.revision ≡ ok number
    pub next : committed.revision ≡ from_u64 (saturating_add number 1)
    pub raw : String
    pub as_text : texts.thread_to_text committed ≡ ok raw
    pub stored : kept_content laws texts disk' (of_thread thread.id) ≡ some raw
    pub others :
        (kept : Kept)
        → kept ≢ of_thread thread.id
        → kept_content laws texts disk' kept ≡ kept_content laws texts disk kept

  current_thread-Holds :
      (id : String) (disk : Disk W) {current : Thread} {after : Disk W}
      → validate_thread_id id ≡ ok tt
      → current_thread files texts id disk ≡ (ok current, after)
      → Holds disk id current.revision
  unfolding current_thread load ◌>>=◌ or_new timed new_thread
  current_thread-Holds id disk {current} {after} valid h =
      by_case (files.read_to_string (thread_path id) disk.world) refl (sym (ap run valid) ∙ h)
    where
      run : Result Unit → Result Thread × Disk W
      run v =
          let r =
            continue v
              (λ _ d. (
                loaded files texts id (files.read_to_string (thread_path id) d.world).0,
                record d { world = (files.read_to_string (thread_path id) d.world).1 },
              ))
              disk in
          or_new files texts id r.0 r.1

      from_text :
          (raw : String) (w : W)
          → kept_content laws texts disk (of_thread id) ≡ some raw
          → (t : Fallible String Thread) → texts.thread_from_text raw ≡ t
          → or_new files texts id (from_json t) (record disk { world = w }) ≡ (ok current, after)
          → Holds disk id current.revision
      from_text raw w stored (ok t) e h =
          subst (Holds disk id) (ap (λ t. t.revision) (ok_inj (ap (λ p. p.0) h)))
            (Holds.in_file raw t stored e)
      from_text raw w stored (err m) e h = cc

      by_case :
          (p : Fallible IoError String × W)
          → files.read_to_string (thread_path id) disk.world ≡ p
          → or_new files texts id (loaded files texts id p.0) (record disk { world = p.1 })
            ≡ (ok current, after)
          → Holds disk id current.revision
      by_case (ok raw, w) e h =
          from_text raw w ((laws.read disk.world (thread_path id) (ok raw) w e).1 raw refl)
            (texts.thread_from_text raw) refl h
      by_case (err (not_found m), w) e h =
          subst (Holds disk id) (ap (λ t. t.revision) (ok_inj (ap (λ p. p.0) h))) (
            Holds.no_file
              ((laws.read disk.world (thread_path id) (err (not_found m)) w e).2 m refl))
      by_case (err (other m), w) e h = cc

  -- If files behave as files, a commit that succeeds found the thread's revision in the directory, gives back its
  -- turns under its id with the next revision, whose number is one more as long as that fits 64 bits, has
  -- put the text of what it gives in the thread's file, and left the files of other threads and all caches.
  pub commit_thread-IsCommitted :
      (thread : Thread) (disk : Disk W) {committed : Thread} {after : Disk W}
      → commit_thread files texts thread disk ≡ (ok committed, after)
      → IsCommitted thread disk after committed
  unfolding commit_thread
  commit_thread-IsCommitted thread disk {committed} {after} h =
      from_bind (lift (validate_thread_id thread.id)) _ disk h λ _ d1 valid next.
        from_bind (current_thread files texts thread.id) _ d1 next λ current d2 found next.
          from_bind
            (if same RevisionToken-discrete current.revision thread.revision
              then pure tt
              else raise _)
            _ d2 next
            λ _ d3 checked next.
              from_bind (lift (numeric_revision thread.revision)) _ d3 next
                λ number d4 numbered next.
                  from_bind
                    (timed files texts
                      (touch (record thread { revision = from_u64 (saturating_add number 1) })))
                    _ d4 next
                    λ touched d5 timed next.
                      from_bind (write_thread files texts touched) _ d5 next λ _ d6 written last.
                        let at_d1 : disk ≡ d1 = ap (λ p. p.1) valid in
                        let holds = current_thread-Holds thread.id d1 (ap (λ p. p.0) valid) found in
                        let (equal, at_d3) =
                          passed laws texts
                            (same RevisionToken-discrete current.revision thread.revision) _ d2
                            checked in
                        let at_d4 = at_d3 ∙ ap (λ p. p.1) numbered in
                        let touch =
                          touch-Touched laws texts
                            (record thread { revision = from_u64 (saturating_add number 1) }) d4
                            timed in
                        let write = write_thread-Written laws texts touched d5 written in
                        let is_touched : touched ≡ committed = ok_inj (ap (λ p. p.0) last) in
                        let at_after : d6 ≡ after = ap (λ p. p.1) last in
                        record {
                          valid = ap (λ p. p.0) valid;
                          same_turns = sym (ap (λ t. t.turns) is_touched) ∙ touch.turns;
                          same_id = sym (ap (λ t. t.id) is_touched) ∙ touch.same_id;
                          expected =
                              subst (Holds disk thread.id)
                                (same→eq RevisionToken-discrete current.revision thread.revision
                                  equal)
                                (subst (λ d. Holds d thread.id current.revision) (sym at_d1) holds);
                          number = number;
                          numbered = ap (λ p. p.0) numbered;
                          next = sym (ap (λ t. t.revision) is_touched) ∙ touch.revision;
                          raw = write.raw;
                          as_text =
                              ap (λ t. texts.thread_to_text t) (sym is_touched) ∙ write.as_text;
                          stored =
                              ap (λ d. kept_content laws texts d (of_thread thread.id))
                                (sym at_after)
                              ∙ ap (λ id. kept_content laws texts d6 (of_thread id))
                                  (sym touch.same_id)
                              ∙ write.replaced.now;
                          others = λ kept apart.
                              ap (λ d. kept_content laws texts d kept) (sym at_after)
                              ∙ write.replaced.others kept (
                                  subst (λ id. path_of kept ≢ thread_path id) (sym touch.same_id)
                                    (thread_path-apart laws texts kept thread.id apart))
                              ∙ touch.kept kept
                              ∙ ap (λ d. kept_content laws texts d kept) (sym at_d4)
                              ∙ ap (λ p. kept_content laws texts p.1 kept) (sym found)
                              ∙ (current_thread-Quiet laws texts thread.id).quiet d1 kept
                              ∙ ap (λ d. kept_content laws texts d kept) (sym at_d1);
                        }

  -- If files behave as files, and the text of a thread that a commit gave back is read as that thread, a load after
  -- the commit, whose reading of the file does not fail, gives that thread.
  pub load-commit_thread :
      (thread : Thread) (disk : Disk W) {committed : Thread} {after : Disk W} {raw : String} {w : W}
      → commit_thread files texts thread disk ≡ (ok committed, after)
      → ((text : String)
          → texts.thread_to_text committed ≡ ok text
          → texts.thread_from_text text ≡ ok committed)
      → files.read_to_string (thread_path thread.id) after.world ≡ (ok raw, w)
      → load files texts thread.id after ≡ (ok committed, record after { world = w })
  unfolding load ◌>>=◌
  load-commit_thread thread disk {committed} {after} {raw} {w} h reads found =
      let is = commit_thread-IsCommitted thread disk h in
      let held = (laws.read after.world (thread_path thread.id) (ok raw) w found).1 raw refl in
      let same_text : is.raw ≡ raw = (let both = sym is.stored ∙ held in cc) in
      let parsed = ap texts.thread_from_text (sym same_text) ∙ reads is.raw is.as_text in
      rw (is.valid, found, parsed) refl

  -- An agent whose store is this one keeps the turns that it commits.
  pub compare_and_commit-KeepsTurns :
      (agent : Agent (Disk W))
      → ((thread : Thread) (fence : LeaseFence) (disk : Disk W)
          → agent.compare_and_commit thread fence disk
            ≡ compare_and_commit files texts thread fence disk)
      → KeepsTurns agent
  unfolding compare_and_commit
  compare_and_commit-KeepsTurns agent by_store = record {
    at = λ thread fence disk committed after h.
        (commit_thread-IsCommitted thread disk (sym (by_store thread fence disk) ∙ h)).same_turns;
  }
