-- ===== src/Events/Stacktraces.antt =====
-- apps/event_ingest/process_event.py, `hydrate_stacktrace`: exceptions without a stacktrace take one
-- from the threads of their event. A stacktrace is a number, as it is only copied.
use Prim.Native.String.{String}
use fork_glitchtip_glitchtip.Common.{
  ◌≡◌, ℕ, Bool, Option, none, some, List, [], ◌∷◌, refl, sym, subst, ap₂, ap, ◌∙◌,
}
use fork_glitchtip_glitchtip.Events.Tags.{same_tag_text}
use fork_glitchtip_glitchtip.Events.Releases.{next_where}

-- `id` is the text of the thread's id
record EventThread : Type 0 where
  id : String
  current : Bool
  stacktrace : Option ℕ

record EventException : Type 0 where
  thread_id : Option String
  stacktrace : Option ℕ

-- the thread of the exception's id
thread_of : Option String → List EventThread → Option EventThread
thread_of none threads = none
thread_of (some id) threads = next_where (λ t. same_tag_text t.id id) threads

-- that thread, or else the current one
matching : Option EventThread → List EventThread → Option EventThread
matching (some t) threads = some t
matching none threads = next_where (λ t. t.current) threads

stack_of : Option EventThread → Option ℕ
stack_of none = none
stack_of (some t) = t.stacktrace

hydrate_exception : Option ℕ → List EventThread → EventException → EventException
hydrate_exception (some stack) threads e = e
hydrate_exception none threads e = record e {
  stacktrace = stack_of (matching (thread_of e.thread_id threads) threads);
}

-- the early returns, for no exceptions and for no threads, leave what the loop leaves
hydrate_stacktrace : List EventThread → List EventException → List EventException
hydrate_stacktrace threads [] = []
hydrate_stacktrace threads (e ∷ exceptions) =
    hydrate_exception e.stacktrace threads e ∷ hydrate_stacktrace threads exceptions

filled :
    (o : Option ℕ) (threads : List EventThread) (e : EventException)
    → e.stacktrace ≡ o
    → stack_of (matching (thread_of e.thread_id threads) threads) ≡ o
    → hydrate_exception o threads e ≡ e
unfolding hydrate_exception
filled (some stack) threads e has found = refl
filled none threads e has found = ap (λ x. record e { stacktrace = x }) (found ∙ sym has)

hydrated_kept :
    (o : Option ℕ) (threads : List EventThread) (e : EventException)
    → o ≡ e.stacktrace
    → let e' = hydrate_exception o threads e in hydrate_exception e'.stacktrace threads e' ≡ e'
unfolding hydrate_exception
hydrated_kept (some stack) threads e at = subst (λ x. hydrate_exception x threads e ≡ e) at refl
hydrated_kept none threads e at =
    filled (stack_of (matching (thread_of e.thread_id threads) threads)) threads _ refl refl

-- Hydrating the stacktraces of an event a second time changes nothing.
hydrate_stacktrace_idem :
    (threads : List EventThread) (exceptions : List EventException)
    → hydrate_stacktrace threads (hydrate_stacktrace threads exceptions)
      ≡ hydrate_stacktrace threads exceptions
unfolding hydrate_stacktrace
hydrate_stacktrace_idem threads [] = refl
hydrate_stacktrace_idem threads (e ∷ exceptions) =
    ap₂ ◌∷◌ (hydrated_kept e.stacktrace threads e refl) (hydrate_stacktrace_idem threads exceptions)
