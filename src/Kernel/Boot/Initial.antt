-- ===== src/Kernel/Boot/Initial.antt =====
-- The system is consistent from the start on.
use os_project_signal.Prelude.{
  ℕ, zero, suc, ◌≡◌, refl, sym, ap, ◌∙◌, false, none, some, List, length, length-replicate,
  replicate, get_elem?,
}
use os_project_signal.Signal.Memory.{Memory}
use os_project_signal.Signal.State.{ProcState, unused, runnable, running, Trapframe, Proc}
use os_project_signal.Kernel.Queue.{nproc, queue_size}
use os_project_signal.Kernel.Queue.Refine.{init_queue-IsQueue}
use os_project_signal.Kernel.System.{System, eq_state}
use os_project_signal.Kernel.System.Counts.{count, count_cpu}
use os_project_signal.Kernel.System.Consistent.{IsConsistent, flag, in_state, inside-lt}
use os_project_signal.Kernel.System.Keeps.{add_task-Keeps}
use os_project_signal.Kernel.Family.Transitions.{allocproc-free}
use os_project_signal.Kernel.Boot.{zero_proc, proc_init, load_init_app}

pub in_state-replicate :
    (st : ProcState) (n i : ℕ) (p : Proc)
    → eq_state (Proc.state p) st ≡ false
    → in_state st (replicate n p) i ≡ 0
in_state-replicate st zero i p other = refl
in_state-replicate st (suc n) zero p other = ap flag other
in_state-replicate st (suc n) (suc i) p other = in_state-replicate st n i p other

count_cpu-replicate : (i n : ℕ) → count_cpu i (replicate n none) ≡ 0
count_cpu-replicate i zero = refl
count_cpu-replicate i (suc n) = count_cpu-replicate i n

pub get_elem?-replicate : (n i : ℕ) (p q : Proc) → get_elem? (replicate n p) i ≡ some q → q ≡ p
get_elem?-replicate zero i p q at_i = absurd (cc)
get_elem?-replicate (suc n) zero p q at_i = cc
get_elem?-replicate (suc n) (suc i) p q at_i = get_elem?-replicate n i p q at_i

pub proc_init-IsConsistent :
    (n : ℕ) (slots : List ℕ) (m : Memory) (tf : Trapframe)
    → length slots ≡ queue_size
    → IsConsistent (proc_init n slots m tf)
unfolding proc_init
proc_init-IsConsistent n slots m tf storage =
    let (ring, empty) = init_queue-IsQueue slots storage in
    record {
      places = length-replicate nproc (zero_proc m tf);
      ring = ring;
      queued =
          λ i. ap (count i) empty ∙ sym (in_state-replicate runnable nproc i (zero_proc m tf) refl);
      parents =
          λ i p at_i. let same = get_elem?-replicate nproc i (zero_proc m tf) p at_i in rw same tt;
      init_in = tt;
      on_cpu = λ i.
          count_cpu-replicate i n ∙ sym (in_state-replicate running nproc i (zero_proc m tf) refl);
    }

-- The first process is loaded in a consistent system.
pub load_init_app-IsConsistent :
    (s : System) (m : Memory) (tf : Trapframe) (p : Proc)
    → IsConsistent s
    → get_elem? (System.pool s) 0 ≡ some p
    → Proc.state p ≡ unused
    → (s' : System) × (load_init_app (some (m, tf)) s ≡ some s')
      × IsConsistent s'
      × (System.init_proc s' ≡ some 0)
unfolding load_init_app
load_init_app-IsConsistent s m tf p v at_0 free =
    let (t, np, made, w, cpus, at_0', st) = allocproc-free s p v at_0 free in
    let first = record np { mm = m; trapframe = tf; state = runnable } in
    let (s', added, w', cpus') = add_task-Keeps t 0 np first w at_0' (λ h. h) (rw st) (rw st) in
    (
      record s' { init_proc = some 0 },
      rw (load_init_app, made, at_0', added),
      record {
        places = w'.places;
        ring = w'.ring;
        queued = w'.queued;
        parents = w'.parents;
        init_in = inside-lt t 0 w at_0';
        on_cpu = w'.on_cpu;
      },
      refl,
    )
