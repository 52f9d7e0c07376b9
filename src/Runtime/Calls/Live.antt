-- ===== src/Runtime/Calls/Live.antt =====
-- What holds of a job whatever its threads do.
use cluster_manager_das.Prelude.{
  ℕ, ◌≤◌, Bool, List, [], ◌∷◌, ◌++◌, Option, none, some, refl, arith, length, length-append,
}
use cluster_manager_das.NodePool.Calls.{after_call}
use cluster_manager_das.NodePool.Calls.Reachable.{HasLaw, after_call-IsPartition}
use cluster_manager_das.Runtime.RunState.{starting}
use cluster_manager_das.Runtime.Proxy.{FaultReport}
use cluster_manager_das.Runtime.Context.{Payload}
use cluster_manager_das.Runtime.Context.Isolation.{
  release_nodes-IsKept, handle_faults-IsKept, add_current_snapshot_param-IsKept,
}
use cluster_manager_das.Runtime.Apply.Kept.{AllRoundsLawful, apply_resources-IsKept}
use cluster_manager_das.Runtime.Machine.{
  dispatch_to, dispatch, dispatch_with_trace, bounded, add_trace, add_current_trace, on_event,
  on_signal, note_started, note_stopped, on_started, on_stopped,
}
use cluster_manager_das.Runtime.Machine.State.{
  Signal, Handler, Source, Event, TraceEntry, JobStateMachine,
}
use cluster_manager_das.Runtime.Machine.Handlers.{note}
use cluster_manager_das.Runtime.Machine.Sound.{
  IsSound, IsStep, set_run_state-IsSound, with_proxy-IsSound,
}
use cluster_manager_das.Runtime.Machine.Steps.{run_handler-IsStep}
use cluster_manager_das.Runtime.Calls.{
  JobCall, event_comes, job_started, job_stopped, nodes_released, stop_given_up, pool_called,
  nodes_requested, faults_noted, release_job, give_up_stop, after_job_call, after_job_calls,
}

-- A sound job, and at most thirty entries in the trace.
pub record IsLive (m : JobStateMachine) : Type 0 where
  pub sound : IsSound m.ctx
  pub short : length m.flow_trace ≤ 30

length-bounded : (ts : List TraceEntry) → length ts ≤ 31 → length (bounded ts) ≤ 30
unfolding bounded
length-bounded [] h = ground arith
length-bounded (t ∷ ts) h = ground arith

length-bounded-snoc :
    (ts : List TraceEntry) (t : TraceEntry) → length ts ≤ 30 → length (bounded (ts ++ t ∷ [])) ≤ 30
length-bounded-snoc ts t h =
    length-bounded (ts ++ t ∷ []) (ground (arith, length-append ts (t ∷ [])))

add_trace-IsLive : (o : Option TraceEntry) (m : JobStateMachine) → IsLive m → IsLive (add_trace o m)
unfolding add_trace
add_trace-IsLive none m h = h
add_trace-IsLive (some t) m h = record {
  sound = h.sound;
  short = length-bounded-snoc m.flow_trace _ h.short;
}

module _ (raises : FaultReport → Bool) (now : ℕ) (payload : Payload) where
  dispatch_to-IsStep :
      (o : Option Handler) (signal : Signal) (m : JobStateMachine)
      → IsSound m.ctx
      → IsStep m (dispatch_to raises now o signal payload m).1
  unfolding dispatch_to note
  dispatch_to-IsStep none signal m h = record { sound = h; same_trace = refl }
  dispatch_to-IsStep (some handler) signal m h =
      let k = run_handler-IsStep raises now payload handler _ h in
      record { sound = k.sound; same_trace = k.same_trace }

  dispatch_with_trace-IsLive :
      (source : Source) (signal : Signal) (m : JobStateMachine)
      → IsLive m
      → IsLive (dispatch_with_trace raises now source signal payload m).1
  unfolding dispatch_with_trace dispatch add_current_trace
  dispatch_with_trace-IsLive source signal m h =
      let k = dispatch_to-IsStep _ signal _ h.sound in
      add_trace-IsLive _ _ (record { sound = k.sound; short = rw k.same_trace h.short })

-- The pool's calls and the requests ask blacklists that keep their law, and a reset is lawful.
abbrev pub JobLaw : JobCall → Type 0
JobLaw (pool_called c) = HasLaw c
JobLaw (nodes_requested has_slurm required slots rounds) = AllRoundsLawful rounds
JobLaw _ = Unit

abbrev pub AllJobLaw : List JobCall → Type 0
AllJobLaw [] = Unit
AllJobLaw (c ∷ cs) = JobLaw c × AllJobLaw cs

on_signal-IsLive :
    (raises : FaultReport → Bool) (now : ℕ) (e : Event) (o : Option Signal) (m : JobStateMachine)
    → IsLive m
    → IsLive (on_signal raises now e o m).1
unfolding on_signal
on_signal-IsLive raises now e none m h = h
on_signal-IsLive raises now e (some signal) m h =
    dispatch_with_trace-IsLive raises now e.payload e.source signal m h

release_job-IsSound :
    (now : ℕ) (m : JobStateMachine) → IsSound m.ctx → IsSound (release_job now m).ctx
unfolding release_job
release_job-IsSound now m h =
    with_proxy-IsSound _ m.ctx (release_nodes-IsKept now m.ctx.node_pool_proxy h.kept) h

after_job_call-IsLive :
    (c : JobCall) (m : JobStateMachine) → JobLaw c → IsLive m → IsLive (after_job_call c m)
unfolding after_job_call on_event on_started on_stopped note_started note_stopped give_up_stop
after_job_call-IsLive (event_comes raises now e) m law h = on_signal-IsLive raises now e _ m h
after_job_call-IsLive (job_started raises now) m law h =
    dispatch_with_trace-IsLive raises now _ _ _ (note_started now m) (record {
      sound =
          with_proxy-IsSound _ m.ctx
            (add_current_snapshot_param-IsKept _ m.ctx.node_pool_proxy h.sound.kept) h.sound;
      short = h.short;
    })
after_job_call-IsLive (job_stopped raises now) m law h =
    dispatch_with_trace-IsLive raises now _ _ _ (note_stopped now m) (record {
      sound =
          with_proxy-IsSound _ m.ctx
            (add_current_snapshot_param-IsKept _ m.ctx.node_pool_proxy h.sound.kept) h.sound;
      short = h.short;
    })
after_job_call-IsLive (nodes_released now) m law h = record {
  sound = release_job-IsSound now m h.sound;
  short = unfold release_job in h.short;
}
after_job_call-IsLive (stop_given_up now) m law h = record {
  sound =
      set_run_state-IsSound starting (release_job now m).ctx
        (release_job-IsSound now m h.sound).kept tt;
  short = unfold release_job in h.short;
}
after_job_call-IsLive (pool_called c) m law h = record {
  sound =
      with_proxy-IsSound
        (record m.ctx.node_pool_proxy { node_pool = after_call c m.ctx.node_pool_proxy.node_pool })
        m.ctx
        (record {
          partition = after_call-IsPartition _ law h.sound.kept.partition;
          saved = h.sound.kept.saved;
        })
        h.sound;
  short = h.short;
}
after_job_call-IsLive (nodes_requested has_slurm required slots rounds) m law h = record {
  sound =
      with_proxy-IsSound _ m.ctx
        (apply_resources-IsKept has_slurm required slots rounds m.ctx.node_pool_proxy law
          h.sound.kept)
        h.sound;
  short = h.short;
}
after_job_call-IsLive (faults_noted failed running reasons) m law h = record {
  sound =
      with_proxy-IsSound _ m.ctx
        (handle_faults-IsKept failed running reasons m.ctx.node_pool_proxy h.sound.kept) h.sound;
  short = h.short;
}

-- From a live job, whatever events come, however starts, stops and requests for nodes end, and
-- whichever calls of the pool and notes of faults by the monitor stand between them, where the
-- blacklists are lawful and each reset's abnormal nodes belong to its total: the pool follows its
-- rules, the snapshot's file has the snapshot but for its faults and running nodes, the job is
-- starting, pending, running or recovering with a phase, a restart goes on from its state where the
-- state file can be written, and the trace has thirty entries at most.
pub after_job_calls-IsLive :
    (cs : List JobCall) (m : JobStateMachine)
    → AllJobLaw cs
    → IsLive m
    → IsLive (after_job_calls cs m)
unfolding after_job_calls
after_job_calls-IsLive [] m law h = h
after_job_calls-IsLive (c ∷ cs) m law h =
    after_job_calls-IsLive cs (after_job_call c m) law.1 (after_job_call-IsLive c m law.0 h)
