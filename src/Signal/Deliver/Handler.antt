-- ===== src/Signal/Deliver/Handler.antt =====
-- The frame of a handler: where it stands, and the process that starts the handler.
use os_project_signal.Prelude.{ℕ, ◌+◌, ◌%◌, ◌^◌, ◌≤◌, ◌<◌, ◌≡◌, true, some, List, length, arith}
use os_project_signal.Signal.Memory.{Memory, pgsize, copy_to_user}
use os_project_signal.Signal.Memory.Copies.{write_at, copy_to_user-page}
use os_project_signal.Signal.State.{Sigaction, Ksignal, Trapframe, Proc}
use os_project_signal.Signal.Frame.{
  sizeof_siginfo, sizeof_ucontext, context_words, words_to_bytes, siginfo_bytes,
}
use os_project_signal.Signal.Frame.RoundTrip.{length-words_to_bytes}
use os_project_signal.Signal.Deliver.{returns, frame_sp, enter_handler, set_up}

-- The frame of a handler starts a page and ends at or below the old stack pointer, less than a page
-- away from it. The stack pointer is a 64-bit number with room for the frame below it.
pub frame_sp_lem :
    (sp : ℕ)
    → sizeof_ucontext + sizeof_siginfo ≤ sp
    → sp < 2 ^ 64
    → (frame_sp sp % pgsize ≡ 0)
      × (frame_sp sp + (sizeof_ucontext + sizeof_siginfo) ≤ sp)
      × (sp < frame_sp sp + (sizeof_ucontext + sizeof_siginfo) + pgsize)
unfolding frame_sp
frame_sp_lem sp room fits = omega arith

-- The process whose frame is written at the physical address `pa`.
unfoldable pub with_frame : ℕ → ℕ → Proc → Proc
with_frame signo pa p = record p {
  mm = record (Proc.mm p) {
    byte =
        write_at
          (write_at (Memory.byte (Proc.mm p)) (pa + sizeof_siginfo)
            (words_to_bytes (context_words (Ksignal.sigmask (Proc.signal p)) (Proc.trapframe p))))
          pa (siginfo_bytes (Ksignal.siginfos (Proc.signal p) signo));
  };
}

length-context :
    (mask : ℕ) (tf : Trapframe) → length (words_to_bytes (context_words mask tf)) ≡ sizeof_ucontext
unfolding context_words
length-context mask tf = length-words_to_bytes (context_words mask tf)

-- The copy to the start of a page.
copy_to_user-start :
    (m : Memory) (page pa : ℕ) (bytes : List ℕ)
    → page % pgsize ≡ 0
    → page + pgsize < 2 ^ 64
    → length bytes ≤ pgsize
    → m.walkaddr page ≡ some pa
    → copy_to_user m page bytes ≡ (record m { byte = write_at m.byte pa bytes }, true)
copy_to_user-start m page pa bytes aligned high fits there =
    let copied = copy_to_user-page m page pa 0 bytes aligned high (omega arith) there in
    let same : page + 0 ≡ page = omega arith in
    let same_pa : pa + 0 ≡ pa = omega arith in rw (same, same_pa) at copied

-- A handler is set up where the page of the frame is there.
pub set_up-page :
    (signo : ℕ) (sa : Sigaction) (p : Proc) (pa : ℕ)
    → sizeof_ucontext + sizeof_siginfo ≤ Trapframe.sp (Proc.trapframe p)
    → Trapframe.sp (Proc.trapframe p) + pgsize < 2 ^ 64
    → Memory.walkaddr (Proc.mm p) (frame_sp (Trapframe.sp (Proc.trapframe p))) ≡ some pa
    → set_up signo sa p
      ≡ returns (
          enter_handler signo sa
            (frame_sp (Trapframe.sp (Proc.trapframe p)))
            (with_frame signo pa p))
unfolding set_up with_frame
set_up-page signo sa p pa room high there =
    let page = frame_sp (Trapframe.sp (Proc.trapframe p)) in
    let context =
      words_to_bytes (context_words (Ksignal.sigmask (Proc.signal p)) (Proc.trapframe p)) in
    let info = siginfo_bytes (Ksignal.siginfos (Proc.signal p) signo) in
    let (aligned, below, near) =
      frame_sp_lem (Trapframe.sp (Proc.trapframe p)) room (omega arith) in
    rw (
      copy_to_user-page (Proc.mm p) page pa sizeof_siginfo context aligned (omega arith)
          (omega arith) there,
      copy_to_user-start
          (record (Proc.mm p) {
            byte = write_at (Memory.byte (Proc.mm p)) (pa + sizeof_siginfo) context;
          })
          page pa info aligned (omega arith) (omega arith) there,
    )
