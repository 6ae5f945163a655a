-- ===== src/JsonStore/Replaced.antt =====
-- The files that a write of canary-agent-store-json/src/store.rs replaces.
use canary_agent.Prelude.{
  String, Bool, true, false, some, ◌≡◌, ◌≢◌, refl, sym, ◌∙◌, ap, if◌then◌else◌,
}
use canary_agent.Prelude.Result.{Result as Fallible, ok, err, ok_inj}
use canary_agent.Prelude.Atomic.{Same}
use canary_agent.Kernel.Clock.{new_id}
use canary_agent.Kernel.Events.{Thread, touch}
use canary_agent.Runtime.Error.{AgentError, Result}
use canary_agent.Runtime.Exec.{pure, raise, lift, from_bind}
use canary_agent.JsonStore.{
  thread_path, temporary_path, IoError, not_found, other, Files, Texts, Disk, attempt, timed,
  replace, write_thread, from_io, from_json,
}
use canary_agent.JsonStore.Commits.{
  AreFiles, Kept, of_thread, of_cache, path_of, path_of-apart, kept_content, create-Quiet,
}

module _ {W : Type 0} {files : Files W} (laws : AreFiles files) (texts : Texts) where
  -- An operation on the files that succeeds, by what it did.
  from_attempt {ℓ} :
      {A : Type 0} {P : Type ℓ} (m : W → Fallible IoError A × W) (disk : Disk W) {a : A}
      {after : Disk W}
      → attempt files texts m disk ≡ (ok a, after)
      → (m disk.world ≡ (ok a, after.world) → P)
      → P
  unfolding attempt
  from_attempt {A} {P} m disk {a} {after} h k = by_case (m disk.world) refl h
    where
      by_case :
          (p : Fallible IoError A × W)
          → m disk.world ≡ p
          → ◌≡◌ {A = Result A × Disk W} (from_io p.0, record disk { world = p.1 }) (ok a, after)
          → P
      by_case (ok b, w) e h = k (
          e
          ∙ ap (λ x. (ok x, w)) (ok_inj (ap (λ p. p.0) h))
          ∙ ap (λ x. (ok a, x)) (ap (λ p. p.1.world) h))
      by_case (err (not_found x), w) e h = cc
      by_case (err (other x), w) e h = cc

  pub record Replaced (target : Kept) (raw : String) (disk after : Disk W) : Type 0 where
    pub now : kept_content laws texts after target ≡ some raw
    pub others :
        (kept : Kept)
        → path_of kept ≢ path_of target
        → kept_content laws texts after kept ≡ kept_content laws texts disk kept

  replace-Replaced :
      (target : Kept) (raw prefix : String) (disk : Disk W) {u : Unit} {after : Disk W}
      → replace files texts (path_of target) raw prefix disk ≡ (ok u, after)
      → Replaced target raw disk after
  unfolding replace timed
  replace-Replaced target raw prefix disk {u} {after} h =
      from_bind (timed files texts (new_id prefix)) _ disk h λ write_id d named next.
        from_bind (attempt files texts (files.write (temporary_path (path_of target) write_id) raw))
          _ d next
          λ _ e wrote last.
            from_attempt (files.write (temporary_path (path_of target) write_id) raw) d wrote
              λ written.
                from_attempt
                  (files.rename (temporary_path (path_of target) write_id) (path_of target)) e last
                  λ moved.
                    let temporary = temporary_path (path_of target) write_id in
                    let before : disk.world ≡ d.world = ap (λ p. p.1.world) named in
                    let (unwritten, fresh) =
                      laws.written d.world temporary raw (ok tt) e.world written in
                    let (put, unmoved) =
                      laws.renamed e.world temporary (path_of target) after.world moved in
                    record {
                      now = put ∙ fresh refl;
                      others = λ kept apart.
                          unmoved (path_of kept) (path_of-apart kept (path_of target) write_id)
                            apart
                          ∙ unwritten (path_of kept) (path_of-apart kept (path_of target) write_id)
                          ∙ sym (ap (λ w. laws.content w (path_of kept)) before);
                    }

  pub record Written (thread : Thread) (disk after : Disk W) : Type 0 where
    pub raw : String
    pub as_text : texts.thread_to_text thread ≡ ok raw
    pub replaced : Replaced (of_thread thread.id) raw disk after

  pub write_thread-Written :
      (thread : Thread) (disk : Disk W) {u : Unit} {after : Disk W}
      → write_thread files texts thread disk ≡ (ok u, after)
      → Written thread disk after
  unfolding write_thread
  write_thread-Written thread disk {u} {after} h =
      from_bind (attempt files texts (files.create_parent (thread_path thread.id))) _ disk h
        λ _ d made next.
          from_bind (lift (from_json (texts.thread_to_text thread))) _ d next λ raw e encoded last.
            let replaced = replace-Replaced (of_thread thread.id) raw "write" e last in
            let at_e = ap (λ p. p.1) encoded in
            record {
              raw = raw;
              as_text = from_ok (texts.thread_to_text thread) (ap (λ p. p.0) encoded);
              replaced = record {
                now = replaced.now;
                others = λ kept apart.
                    replaced.others kept apart
                    ∙ ap (λ x. kept_content laws texts x kept) (sym at_e)
                    ∙ ap (λ p. kept_content laws texts p.1 kept) (sym made)
                    ∙ (create-Quiet laws texts (thread_path thread.id)).quiet disk kept;
              };
            }
    where
      from_ok : {raw : String} (t : Fallible String String) → from_json t ≡ ok raw → t ≡ ok raw
      from_ok (ok x) e = ap (λ x. x) (ap ok (ok_inj e))
      from_ok (err m) e = cc

  pub record Touched (thread touched : Thread) (disk after : Disk W) : Type 0 where
    pub turns : touched.turns ≡ thread.turns
    pub same_id : touched.id ≡ thread.id
    pub revision : touched.revision ≡ thread.revision
    pub kept : Same (kept_content laws texts) disk after

  pub touch-Touched :
      (thread : Thread) (disk : Disk W) {touched : Thread} {after : Disk W}
      → timed files texts (touch thread) disk ≡ (ok touched, after)
      → Touched thread touched disk after
  unfolding timed touch
  touch-Touched thread disk h =
      let e = ok_inj (ap (λ p. p.0) h) in
      record {
        turns = sym (ap (λ t. t.turns) e);
        same_id = sym (ap (λ t. t.id) e);
        revision = sym (ap (λ t. t.revision) e);
        kept = λ kept. sym (ap (λ p. kept_content laws texts p.1 kept) h);
      }

  pub passed :
      (b : Bool) (e : AgentError) (disk : Disk W) {u : Unit} {after : Disk W}
      → (if b then pure tt else raise e) disk ≡ (ok u, after)
      → (b ≡ true) × (disk ≡ after)
  passed true e disk h = (refl, ap (λ p. p.1) h)
  passed false e disk h = cc

  pub thread_path-apart :
      (kept : Kept) (id : String) → kept ≢ of_thread id → path_of kept ≢ thread_path id
  thread_path-apart (of_thread t) id apart e =
      apart (let same_id : t ≡ id = cc in ap of_thread same_id)
  thread_path-apart (of_cache t) id apart e = cc
