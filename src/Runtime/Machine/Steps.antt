-- ===== src/Runtime/Machine/Steps.antt =====
-- Each handler leaves a sound job and the trace of the earlier signals.
use cluster_manager_das.Prelude.{
  ℕ, String, Bool, true, false, ◌&&◌, ◌||◌, ◌==◌, List, Option, none, some, refl, ◌∙◌, is_empty,
  Bool-cases, Option-cases, inl, inr,
}
use cluster_manager_das.Runtime.RunState.{
  RunState, init, starting, pending, running, hang, loss_divergence, recovering, fault,
  fault_recover, complete,
}
use cluster_manager_das.Runtime.Proxy.{NodeSnapshot, FaultReport}
use cluster_manager_das.Runtime.Context.{
  Value, Payload, RecoveryPhase, restarting, get_or, reset_retry,
}
use cluster_manager_das.Runtime.Context.Isolation.{add_current_snapshot_param-IsKept}
use cluster_manager_das.Runtime.Machine.State.{
  Handler, to_pending, to_running, pending_timeout, to_hang, to_loss, to_inf, to_iter,
  handle_log_exit, recovery_stop_ok, recovery_start_ok, handle_node_abnormal, handle_job_release,
  Reason, Alert, inf_alert, JobStateMachine,
}
use cluster_manager_das.Runtime.Machine.Handlers.{
  note, require_manual_intervention, call_handle, blame_rank, loss_of, typed_rank, recover_if,
  exit_of_host, handle_exit, note_first, note_checkpoint, note_last, abnormal_of, run_handler,
  note_first_of, send, data_or_empty, is_prte,
}
use cluster_manager_das.Runtime.Machine.Sound.{
  Driven, IsSound, IsStep, set_run_state-IsSound, with_proxy-IsSound, enter_recovering-IsStep,
  call_handle-IsStep, IsStep-trans,
}

Driven-phase :
    (s : RunState) (p : Option RecoveryPhase) (q : RecoveryPhase) → Driven s p → Driven s (some q)
Driven-phase starting p q d = tt
Driven-phase pending p q d = tt
Driven-phase running p q d = tt
Driven-phase recovering p q d = tt
Driven-phase init p q d = elim d [ ]
Driven-phase hang p q d = elim d [ ]
Driven-phase loss_divergence p q d = elim d [ ]
Driven-phase fault p q d = elim d [ ]
Driven-phase fault_recover p q d = elim d [ ]
Driven-phase complete p q d = elim d [ ]

manual-IsStep :
    (why : Reason) (m : JobStateMachine)
    → IsSound m.ctx
    → IsStep m (require_manual_intervention why m).1
unfolding require_manual_intervention note
manual-IsStep why m h = record { sound = h; same_trace = refl }

module _ (raises : FaultReport → Bool) (now : ℕ) (payload : Payload) where
  recover_if-IsStep :
      (why : Reason) (m : JobStateMachine) (r : Bool × JobStateMachine)
      → IsStep m r.1
      → IsStep m (recover_if now why r).1
  unfolding recover_if
  recover_if-IsStep why m (true, q) k = IsStep-trans m q _ k (enter_recovering-IsStep now q k.sound)
  recover_if-IsStep why m (false, q) k = IsStep-trans m q _ k (manual-IsStep why q k.sound)

  blame_rank-IsStep :
      (rank : Option Value) (m : JobStateMachine)
      → IsSound m.ctx
      → IsStep m (blame_rank raises rank payload m)
  unfolding blame_rank
  blame_rank-IsStep none m h = record { sound = h; same_trace = refl }
  blame_rank-IsStep (some v) m h = call_handle-IsStep raises v "global_rank" payload m h

  loss_of-IsStep :
      (rank : Option Value) (m : JobStateMachine)
      → IsSound m.ctx
      → IsStep m (loss_of raises now rank payload m).1
  unfolding loss_of
  loss_of-IsStep none m h = record { sound = h; same_trace = refl }
  loss_of-IsStep (some v) m h =
      let k = blame_rank-IsStep (some v) m h in
      IsStep-trans m _ _ k (enter_recovering-IsStep now _ k.sound)

  handled-IsStep :
      (why : Reason) (info : Value) (fault_type : String) (m : JobStateMachine)
      → IsSound m.ctx
      → IsStep m (recover_if now why (call_handle raises info fault_type payload m)).1
  handled-IsStep why info fault_type m h =
      recover_if-IsStep why m _ (call_handle-IsStep raises info fault_type payload m h)

  exit_of_host-IsStep :
      (host : String) (rank : Option Value) (m : JobStateMachine)
      → IsSound m.ctx
      → IsStep m (exit_of_host raises now host rank payload m).1
  unfolding exit_of_host
  exit_of_host-IsStep host rank m h = elim (Bool-cases (host == "")) [
    | inl e ↦ rw e (manual-IsStep _ m h)
    | inr e ↦ rw e (handled-IsStep _ _ _ m h)
  ]

  handle_exit-IsStep :
      (m : JobStateMachine) → IsSound m.ctx → IsStep m (handle_exit raises now payload m).1
  unfolding handle_exit
  handle_exit-IsStep m h =
      let d = data_or_empty payload.data_of in
      let t = get_or "" d.fault_type in
      elim (Bool-cases (t == "root_cause")) [
        | inl e ↦ rw e (exit_of_host-IsStep _ _ m h)
        | inr e ↦ rw e (elim (Bool-cases (t == "proc" && is_prte d.runtime)) [
          | inl p ↦ rw p (handled-IsStep _ _ _ m h)
          | inr p ↦ rw p (elim (Bool-cases (t == "global_rank" || t == "rank" || t == "node")) [
            | inl r ↦ rw r (handled-IsStep _ _ _ m h)
            | inr r ↦ rw r (manual-IsStep _ m h)
          ])
        ])
      ]

  note_first_of-IsStep :
      (o : Option NodeSnapshot) (m : JobStateMachine)
      → IsSound m.ctx
      → IsStep m (note_first_of o payload m)
  unfolding note_first_of
  note_first_of-IsStep none m h = record { sound = h; same_trace = refl }
  note_first_of-IsStep (some s) m h = elim (Option-cases s.first_iter) [
    | inr (i, e) ↦ rw e (record { sound = h; same_trace = refl })
    | inl e ↦ rw e (record {
      sound =
          with_proxy-IsSound _ m.ctx
            (add_current_snapshot_param-IsKept _ m.ctx.node_pool_proxy h.kept) h;
      same_trace = refl;
    })
  ]

  note_first-IsStep : (m : JobStateMachine) → IsSound m.ctx → IsStep m (note_first payload m)
  unfolding note_first
  note_first-IsStep m h = note_first_of-IsStep m.ctx.node_pool_proxy.current_snapshot m h

  note_checkpoint-IsStep :
      (m : JobStateMachine) → IsSound m.ctx → IsStep m (note_checkpoint payload m)
  unfolding note_checkpoint
  note_checkpoint-IsStep m h = elim (Bool-cases payload.is_ckpt) [
    | inr e ↦ rw e (record { sound = h; same_trace = refl })
    | inl e ↦ rw e (record {
      sound =
          with_proxy-IsSound _ m.ctx
            (add_current_snapshot_param-IsKept _ m.ctx.node_pool_proxy h.kept) h;
      same_trace = refl;
    })
  ]

  iter-IsStep :
      (m : JobStateMachine)
      → IsSound m.ctx
      → IsStep m (note_last payload (note_checkpoint payload (note_first payload m)))
  unfolding note_last
  iter-IsStep m h =
      let a = note_first-IsStep m h in
      let b = note_checkpoint-IsStep (note_first payload m) a.sound in
      let q = note_checkpoint payload (note_first payload m) in
      record {
        sound =
            with_proxy-IsSound _ q.ctx
              (add_current_snapshot_param-IsKept _ q.ctx.node_pool_proxy b.sound.kept) b.sound;
        same_trace = b.same_trace ∙ a.same_trace;
      }

  abnormal_of-IsStep :
      (nodes : List String) (m : JobStateMachine)
      → IsSound m.ctx
      → IsStep m (abnormal_of now nodes m).1
  unfolding abnormal_of
  abnormal_of-IsStep nodes m h = elim (Bool-cases (is_empty nodes)) [
    | inl e ↦ rw e (record { sound = h; same_trace = refl })
    | inr e ↦ rw e (enter_recovering-IsStep now m h)
  ]

  alerted : (a : Alert) (m q : JobStateMachine) → IsStep (send a m) q → IsStep m q
  alerted a m q k = record { sound = k.sound; same_trace = k.same_trace }

  pub run_handler-IsStep :
      (handler : Handler) (m : JobStateMachine)
      → IsSound m.ctx
      → IsStep m (run_handler raises now handler payload m).1
  unfolding run_handler
  run_handler-IsStep to_pending m h = record {
    sound = set_run_state-IsSound pending m.ctx h.kept tt;
    same_trace = refl;
  }
  run_handler-IsStep to_running m h = record {
    sound = set_run_state-IsSound running (record m.ctx { retry_info = reset_retry }) h.kept tt;
    same_trace = refl;
  }
  run_handler-IsStep pending_timeout m h = enter_recovering-IsStep now m h
  run_handler-IsStep to_hang m h = alerted _ m _ (enter_recovering-IsStep now _ h)
  run_handler-IsStep to_loss m h = alerted _ m _ (loss_of-IsStep _ _ h)
  run_handler-IsStep to_inf m h =
      let k = blame_rank-IsStep (typed_rank payload.data_of) (send inf_alert m) h in
      alerted _ m _ (IsStep-trans _ _ _ k (enter_recovering-IsStep now _ k.sound))
  run_handler-IsStep to_iter m h = iter-IsStep m h
  run_handler-IsStep handle_log_exit m h = handle_exit-IsStep m h
  run_handler-IsStep recovery_stop_ok m h = record {
    sound = record {
      kept = h.kept;
      driven = Driven-phase m.ctx.run_state m.ctx.recovery_phase restarting h.driven;
      resumable = h.resumable;
    };
    same_trace = refl;
  }
  run_handler-IsStep recovery_start_ok m h = record {
    sound = set_run_state-IsSound pending (record m.ctx { retry_info = reset_retry }) h.kept tt;
    same_trace = refl;
  }
  run_handler-IsStep handle_node_abnormal m h = abnormal_of-IsStep payload.abnormal_nodes m h
  run_handler-IsStep handle_job_release m h = enter_recovering-IsStep now m h
