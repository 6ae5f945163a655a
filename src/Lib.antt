-- ===== src/Lib.antt =====
-- canary-agent: a library for agents that talk to a language model and call functions for it. A thread is a list of
-- turns and a turn a list of items. The agent loop runs a turn: it asks the model, runs the functions that the
-- model calls, and records each step as an item before the next one.
--
-- Prelude is what the other modules share: names of the libraries, Boolean tests on native numbers, lists
-- measured by native numbers, text, results, and the sorted association list that stands for a BTreeMap.
--
-- Kernel models canary-agent-kernel/src.
--   Kernel/Value is the part of serde_json's values that the code reads, Kernel/Clock the system clock and the
--   counter behind identifiers, Kernel/Events the threads, turns, items and token usage of events.rs and
--   revision.rs, Kernel/Model the requests and responses of model.rs. Kernel/Projection is
--   `ThreadProjection::from_thread` of projection.rs; Pending and Conversation below it hold its theorems.
--
-- Runtime models canary-agent-runtime/src.
--   Runtime/Error is error.rs. Runtime/Exec is the monad of methods that change what they share and may fail
--   with `?`: what was done before an error stays done. Runtime/Stream is what a turn emits, traces and
--   measures. Runtime/Functions is `FunctionRegistry` of functions.rs (Limits is
--   about one call, Offered about the registry's names), Runtime/Context `CompactingContextBuilder::build` of
--   context.rs.
--   Runtime/Agent is agent_loop.rs: the agent with the objects behind its traits as functions on a world `W`, and the state of
--   a turn that runs. Calls is the loop over the calls of a response with its hooks, Run is
--   `run_turn_internal`, Recovery is `recover_pending_function_calls`, Entry is `run_turn`, `recover_turn` and
--   `resume_suspended_turn`.
--   View, Rules, Transcript, Rounds and the modules behind them lead to the theorems of TurnLoop: View sees a
--   running turn as its status, its items' kinds and the count of calls, Rules says what each small operation
--   does to that, Transcript and Rounds give the grammar of what calls and rounds leave, and
--   Outcome, Outputs, Answered, Recovered and Responses what the grammar implies.
--   Streaming is about the model's stream and Refused about a thread that waits for an answer.
--
-- Revision models canary-agent-revision/src.
--   Revision/Error is error.rs, Revision/Ids is ids.rs, Revision/Spec is spec.rs, Revision/Diff is diff.rs with
--   `AgentSpec::diff`, Revision/Commit is revision.rs, Revision/Store is the trait of store.rs with the laws of a
--   store. Revision/Merge is `merge_value` and `merge_specs` of merge.rs, Revision/Merge/Base `choose_merge_base`.
--   Revision/Controller is controller.rs, its methods as functions of a store on a world `W`. The modules below
--   these are about the changes of tools (Diff/Changes, Diff/Empty), the paths of a merged object (Merge/Paths, Merge/Keys,
--   Merge/Objects), the choice of a base (Merge/Base/Nearest), and the controller's search for ancestors
--   (Controller/Ancestors, Controller/Collected), methods that only read (Controller/Reads),
--   branches that do not move (Controller/Unmoved), a commit (Controller/History), the commit of a merge
--   (Controller/Merged), a new branch and a merge (Controller/Branched), and logs (Controller/Logged,
--   Controller/Ended).
--
-- JsonStore models canary-agent-store-json/src/store.rs, with `RevisionToken::from_u64`. JsonStore/Commits,
--   JsonStore/Replaced and JsonStore/Committed are about `commit_thread`, JsonStore/Revisions about the numbers in revision tokens.
--
-- Tests runs the model at concrete inputs.
--
-- The turn loop is recursion on the number of rounds that are left, which starts at `max_model_iterations`,
-- and the loop over calls recursion on the number of calls that are admitted, so that no fuel is
-- needed. The two loops of the revision controller, along first parents and through all ancestors, run on
-- fuel; a search for ancestors needs one round more than the history has steps from a revision to a parent.
-- The merge of two values is recursion on the base. Numbers of the width of u64 and u32 keep their saturation; usize is taken to be unbounded where the
-- code adds lengths of lists or the distances of a common ancestor. A time budget counts nanoseconds.
--
-- The store, the model, the functions, the hooks, the token estimator, the compactor and the abort signal are
-- parameters. Of the store the theorems on the turn loop ask that a commit gives back the turns that it was
-- given. SHA-256 and serde's readers and writers are parameters of the revision modules, and so is the store,
-- of which the theorems ask the laws of Revision/Store: its two reads neither fail nor change it, revisions that
-- are held stay, and a branch moves only from the head that was expected. An error of a read is outside them. The files of the JSON store are a parameter with the laws
-- of JsonStore/Commits; its methods run one at a time, as under its mutex.
--
-- Not modelled: durations and the metrics that are durations alone, logging, serde's formats, the registry of
-- active turns and session coordinators (session.rs), the lock of the JSON store's directory, the local revision store, the OpenAI clients,
-- the tools with their sandbox, evaluation, observability and the examples.
pub mod Prelude
pub mod Kernel
pub mod Runtime
pub mod Revision
pub mod JsonStore
pub mod Tests
