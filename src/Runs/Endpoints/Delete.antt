-- ===== src/Runs/Endpoints/Delete.antt =====
-- What `delete_run` does to the rows and the tasks.
use open_langgraph_platform.Prelude.{
  ℕ, ◌≡◌, refl, ap, sym, ◌∙◌, is_some, if◌then◌else◌, Bool, true, false, ◌||◌, not, Option, none,
  some, List, [], ◌∷◌, arith, Text, codes, text_eq, text_eq_refl, text_eq_iff, Bool-cases,
  Option-cases, inl, inr, filter,
}
use open_langgraph_platform.Dict.{lookup, lookup-remove}
use open_langgraph_platform.Broker.{Put, ignored, accepted, waiting}
use open_langgraph_platform.Streaming.{Service}
use open_langgraph_platform.Streaming.Producer.{signal_run_cancelled}
use open_langgraph_platform.Runs.{
  RunRow, Task, Server, live_task, written, update_run_status, find_run, is_active,
}
use open_langgraph_platform.Runs.Endpoints.{
  replied, after_signal, cancel_run, owned, select_run, Deletion, deleted, joining, delete_row,
  after_cancel, delete_run, joined,
}

select-filter :
    (run_id thread_id user_id : Text) (runs : List RunRow)
    → select_run run_id thread_id user_id
        (filter (λ r. not (owned run_id thread_id user_id r)) runs)
      ≡ none
unfolding select_run
select-filter run_id thread_id user_id [] = refl
select-filter run_id thread_id user_id (r ∷ runs) =
    ground (arith, select-filter run_id thread_id user_id runs)

find-filter :
    (run_id thread_id user_id other : Text) (runs : List RunRow)
    → text_eq run_id other ≡ false
    → find_run other (filter (λ r. not (owned run_id thread_id user_id r)) runs)
      ≡ find_run other runs
unfolding find_run owned
find-filter run_id thread_id user_id other [] h = refl
find-filter run_id thread_id user_id other (r ∷ runs) h = ground (
  arith,
  find-filter run_id thread_id user_id other runs h,
  text_eq_iff r.run_id run_id,
  text_eq_iff r.run_id other,
)

find-update :
    (run_id other status : Text) (runs : List RunRow)
    → text_eq run_id other ≡ false
    → find_run other (update_run_status runs run_id status none none) ≡ find_run other runs
unfolding find_run update_run_status written
find-update run_id other status [] h = refl
find-update run_id other status (r ∷ runs) h = ground (
  arith,
  find-update run_id other status runs h,
  text_eq_iff r.run_id run_id,
  text_eq_iff r.run_id other,
)

abbrev pub is_joining : Deletion → Bool
is_joining (joining srv) = true
is_joining d = false

-- the server that the row is deleted on: after a wait for the task, the one of that time
abbrev pub deleted_on : Deletion → Server → Server → Server
deleted_on d srv later = if is_joining d then later else srv

-- What `delete_run` has done when it replies.
pub record Deleted (base srv' : Server) (told : Option Task) (thread_id run_id user_id other : Text)
    : Type 0 where
  pub row : select_run run_id thread_id user_id srv'.runs ≡ none
  pub others : find_run other srv'.runs ≡ find_run other base.runs
  pub task : lookup run_id srv'.active_runs ≡ none
  pub cancels : told ≡ live_task (lookup run_id base.active_runs)

deleted_eq : {a b : Server} {t u : Option Task} → deleted a t ≡ deleted b u → (a ≡ b) × (t ≡ u)
deleted_eq e = (cc, cc)

delete_row-Deleted :
    (srv base srv' : Server) (told : Option Task) (thread_id run_id user_id other : Text)
    → text_eq run_id other ≡ false
    → find_run other srv.runs ≡ find_run other base.runs
    → srv.active_runs ≡ base.active_runs
    → delete_row srv thread_id run_id user_id ≡ deleted srv' told
    → Deleted base srv' told thread_id run_id user_id other
unfolding delete_row
delete_row-Deleted srv base srv' told thread_id run_id user_id other n o a h =
    let e = deleted_eq h in
    record {
      row =
          ap (λ (q : Server). select_run run_id thread_id user_id q.runs) (sym e.0)
          ∙ select-filter run_id thread_id user_id srv.runs;
      others =
          ap (λ (q : Server). find_run other q.runs) (sym e.0)
          ∙ find-filter run_id thread_id user_id other srv.runs n
          ∙ o;
      task =
          ap (λ (q : Server). lookup run_id q.active_runs) (sym e.0)
          ∙ ground (arith, lookup-remove run_id run_id srv.active_runs, text_eq_refl run_id);
      cancels = sym e.1 ∙ ap (λ tasks. live_task (lookup run_id tasks)) a;
    }

-- A reply without a wait for the task, and one behind such a wait.
replied-Deleted :
    (srv mid later srv' : Server) (told : Option Task) (thread_id run_id user_id other : Text)
    → text_eq run_id other ≡ false
    → find_run other mid.runs ≡ find_run other srv.runs
    → mid.active_runs ≡ srv.active_runs
    → let d = after_cancel (replied mid) thread_id run_id user_id in
      joined d later thread_id run_id user_id ≡ deleted srv' told
      → Deleted (deleted_on d srv later) srv' told thread_id run_id user_id other
unfolding after_cancel joined delete_row
replied-Deleted srv mid later srv' told thread_id run_id user_id other n e a h =
    elim (Bool-cases (is_some (live_task (lookup run_id mid.active_runs)))) [
      | inl p ↦ rw p (
          delete_row-Deleted later later srv' told thread_id run_id user_id other n refl refl
            (rw p at h))
      | inr p ↦
          rw p
            (delete_row-Deleted mid srv srv' told thread_id run_id user_id other n e a (rw p at h))
    ]

after_cancel-Deleted :
    (p : Put) (s : Service) (srv later srv' : Server) (told : Option Task)
    (thread_id run_id user_id other : Text)
    → text_eq run_id other ≡ false
    → let d =
        after_cancel
          (after_signal (s, p) srv run_id (codes "cancelled"))
          thread_id
          run_id
          user_id in
      joined d later thread_id run_id user_id ≡ deleted srv' told
      → Deleted (deleted_on d srv later) srv' told thread_id run_id user_id other
unfolding after_signal
after_cancel-Deleted waiting s srv later srv' told thread_id run_id user_id other n h =
    unfold after_cancel in unfold joined in cc
after_cancel-Deleted ignored s srv later srv' told thread_id run_id user_id other n h =
    replied-Deleted srv _ later srv' told thread_id run_id user_id other n
      (find-update run_id other (codes "cancelled") srv.runs n) refl h
after_cancel-Deleted (accepted b) s srv later srv' told thread_id run_id user_id other n h =
    replied-Deleted srv _ later srv' told thread_id run_id user_id other n
      (find-update run_id other (codes "cancelled") srv.runs n) refl h

-- the run is active
abbrev pub active_row : Option RunRow → Bool
active_row none = false
active_row (some r) = is_active r.status

-- When the endpoint that deletes a run replies, the run of that thread and owner is gone and its task is no
-- longer among the active ones; the rows of every other run are as they were, or as they are when the
-- endpoint has waited for the run's task; the task is told to cancel if it is not done, and the run was not
-- active unless `force` was given.
pub delete_run-Deleted :
    (srv later srv' : Server) (told : Option Task) (thread_id run_id user_id other : Text) (now : ℕ)
    (force : Bool)
    → text_eq run_id other ≡ false
    → joined (delete_run srv thread_id run_id user_id now force) later thread_id run_id user_id
      ≡ deleted srv' told
    → Deleted
        (deleted_on (delete_run srv thread_id run_id user_id now force) srv later)
        srv'
        told
        thread_id
        run_id
        user_id
        other
      × ((force || not (active_row (select_run run_id thread_id user_id srv.runs))) ≡ true)
unfolding delete_run cancel_run joined delete_row
delete_run-Deleted srv later srv' told thread_id run_id user_id other now force n h =
    elim (Option-cases (select_run run_id thread_id user_id srv.runs)) [
      | inl p ↦ cc (rw (delete_run, p) at h)
      | inr (r, p) ↦ elim (Bool-cases (is_active r.status)) [
        | inl a ↦ elim (Bool-cases force) [
          | inl f ↦ (
            rw (delete_run, p, a, f)
                (after_cancel-Deleted (signal_run_cancelled srv.service run_id now).1 _ srv later
                  srv' told thread_id run_id user_id other n (rw (delete_run, p, a, f) at h)),
            rw f,
          )
          | inr f ↦ cc (rw (delete_run, p, a, f) at h)
        ]
        | inr a ↦ (
          rw (delete_run, p, a)
              (delete_row-Deleted srv srv srv' told thread_id run_id user_id other n refl refl
                (rw (delete_run, p, a) at h)),
          ground (arith, p, a),
        )
      ]
    ]
