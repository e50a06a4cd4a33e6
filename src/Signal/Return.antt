-- ===== src/Signal/Return.antt =====
-- The return from a handler: what `sys_sigreturn` finds in the frame that `do_signal` made.
use os_project_signal.Prelude.{
  ℕ, ◌+◌, ◌%◌, ◌^◌, ◌≤◌, ◌<◌, ◌≡◌, refl, true, some, List, length, arith, ◌∙◌, All, sym, inl,
}
use os_project_signal.Prelude.Int.{pos}
use os_project_signal.Signal.Memory.{Memory, pgsize, copy_from_user}
use os_project_signal.Signal.Memory.Copies.{
  write_at, read_at, read_at-write_at, read_at-apart, copy_from_user-page,
}
use os_project_signal.Signal.State.{Sigaction, Ksignal, Trapframe, Proc}
use os_project_signal.Signal.Frame.{
  sizeof_siginfo, sizeof_ucontext, context_words, words_to_bytes, bytes_to_words, siginfo_bytes,
}
use os_project_signal.Signal.Frame.RoundTrip.{bytes_to_words-words_to_bytes}
use os_project_signal.Signal.Deliver.{
  returns, frame_sp, enter_handler, set_up, handle, act, clear_pending,
}
use os_project_signal.Signal.Deliver.Handler.{frame_sp_lem, with_frame, set_up-page}
use os_project_signal.Signal.Syscalls.{
  sys_sigreturn, set_result, sigreturn_call, with_signal, restore, restore_copied,
}

-- Only a handler ends the loop.
handle-returns :
    (signo : ℕ) (p p' : Proc)
    → handle signo p ≡ returns p'
    → set_up signo (Ksignal.sa (Proc.signal p) signo) (clear_pending signo p) ≡ returns p'
unfolding handle act
handle-returns signo p p' h = ground arith

-- The context in a frame that was written.
context-with_frame :
    (signo : ℕ) (p : Proc) (pa : ℕ)
    → read_at (Memory.byte (Proc.mm (with_frame signo pa p))) (pa + sizeof_siginfo) sizeof_ucontext
      ≡ words_to_bytes (context_words (Ksignal.sigmask (Proc.signal p)) (Proc.trapframe p))
unfolding with_frame siginfo_bytes read_at words_to_bytes context_words
context-with_frame signo p pa =
    let context =
      words_to_bytes (context_words (Ksignal.sigmask (Proc.signal p)) (Proc.trapframe p)) in
    let info = siginfo_bytes (Ksignal.siginfos (Proc.signal p) signo) in
    let byte = Memory.byte (Proc.mm p) in
    read_at-apart (write_at byte (pa + sizeof_siginfo) context) (pa + sizeof_siginfo)
      sizeof_ucontext pa info (inl (omega arith))
    ∙ read_at-write_at byte (pa + sizeof_siginfo) context

sigreturn_call_lem :
    (q : Proc)
    → sigreturn_call q
      ≡ set_result (
          restore_copied q (
            copy_from_user
              (Proc.mm q)
              ((Trapframe.sp (Proc.trapframe q) + sizeof_siginfo) % 2 ^ 64)
              sizeof_ucontext))
unfolding sigreturn_call sys_sigreturn
sigreturn_call_lem q = refl

restore_copied_lem :
    (q : Proc) (bytes : List ℕ)
    → restore_copied q (bytes, true) ≡ (restore (bytes_to_words 33 bytes) q, pos 0)
unfolding restore_copied
restore_copied_lem q bytes = refl

-- What the call does where the page of the context is there.
sigreturn_call-page :
    (q : Proc) (page pb : ℕ) (words : List ℕ)
    → page % pgsize ≡ 0
    → page + pgsize < 2 ^ 64
    → Trapframe.sp (Proc.trapframe q) ≡ page
    → Memory.walkaddr (Proc.mm q) page ≡ some pb
    → read_at (Memory.byte (Proc.mm q)) (pb + sizeof_siginfo) sizeof_ucontext ≡ words_to_bytes words
    → length words ≡ 33
    → All (λ w. w < 2 ^ 64) words
    → sigreturn_call q ≡ set_result (restore words q, pos 0)
sigreturn_call-page q page pb words aligned high at_frame there held count fits =
    let address : (Trapframe.sp (Proc.trapframe q) + sizeof_siginfo) % 2 ^ 64
        ≡ page + sizeof_siginfo =
      omega arith in
    let words_back : bytes_to_words 33 (words_to_bytes words) ≡ words =
      rw (sym count) (bytes_to_words-words_to_bytes words fits) in
    sigreturn_call_lem q
    ∙ rw
        (
          address,
          copy_from_user-page (Proc.mm q) page pb sizeof_siginfo sizeof_ucontext aligned high
              (omega arith) there,
          held,
        )
        (rw (restore_copied_lem q (words_to_bytes words), words_back) refl)

-- The process behind the return, of one that kept the frame.
abbrev returned : Proc → Proc → Proc
returned p q =
    with_signal (record q { trapframe = record (Proc.trapframe p) { t6 = 0; a0 = 0 } })
      (record (Proc.signal q) { sigmask = Ksignal.sigmask (Proc.signal p) })

set_result-restore :
    (p q : Proc)
    → set_result
        (restore (context_words (Ksignal.sigmask (Proc.signal p)) (Proc.trapframe p)) q, pos 0)
      ≡ returned p q
unfolding set_result restore context_words
set_result-restore p q = refl

entered :
    (signo : ℕ) (sa : Sigaction) (page : ℕ) (p : Proc)
    → (Trapframe.sp (Proc.trapframe (enter_handler signo sa page p)) ≡ page)
      × (Proc.mm (enter_handler signo sa page p) ≡ Proc.mm p)
unfolding enter_handler
entered signo sa page p = (refl, refl)

returns_inj : {p p' : Proc} → returns p ≡ returns p' → p ≡ p'
returns_inj h = cc

words_count :
    (p : Proc) → length (context_words (Ksignal.sigmask (Proc.signal p)) (Proc.trapframe p)) ≡ 33
unfolding context_words
words_count p = refl

-- Where `do_signal` starts a handler, and the handler comes back with the stack pointer it was given
-- and with its frame's context as it was, in a page that is still there, the call of `sigreturn` gives
-- the process its program counter, its mask and its registers again, except `t6` and `a0`: these
-- become 0. The user's stack has room for the frame below the end of the address space, its page is
-- there, and the registers and the mask are 64-bit numbers.
pub handle-sigreturn_call :
    (signo : ℕ) (p p' q : Proc) (pa pb : ℕ)
    → sizeof_ucontext + sizeof_siginfo ≤ Trapframe.sp (Proc.trapframe p)
    → Trapframe.sp (Proc.trapframe p) + pgsize < 2 ^ 64
    → Memory.walkaddr (Proc.mm p) (frame_sp (Trapframe.sp (Proc.trapframe p))) ≡ some pa
    → All (λ w. w < 2 ^ 64) (context_words (Ksignal.sigmask (Proc.signal p)) (Proc.trapframe p))
    → handle signo p ≡ returns p'
    → Trapframe.sp (Proc.trapframe q) ≡ Trapframe.sp (Proc.trapframe p')
    → Memory.walkaddr (Proc.mm q) (Trapframe.sp (Proc.trapframe q)) ≡ some pb
    → read_at (Memory.byte (Proc.mm q)) (pb + sizeof_siginfo) sizeof_ucontext
      ≡ read_at (Memory.byte (Proc.mm p')) (pa + sizeof_siginfo) sizeof_ucontext
    → sigreturn_call q
      ≡ with_signal
          (record q { trapframe = record (Proc.trapframe p) { t6 = 0; a0 = 0 } })
          (record (Proc.signal q) { sigmask = Ksignal.sigmask (Proc.signal p) })
handle-sigreturn_call signo p p' q pa pb room high there fits handled same_sp there_q kept =
    let page = frame_sp (Trapframe.sp (Proc.trapframe p)) in
    let sa = Ksignal.sa (Proc.signal p) signo in
    let cleared = clear_pending signo p in
    let (aligned, below, near) =
      frame_sp_lem (Trapframe.sp (Proc.trapframe p)) room (omega arith) in
    let p'_lem : enter_handler signo sa page (with_frame signo pa cleared) ≡ p' =
      returns_inj (
        sym (set_up-page signo sa cleared pa room high there)
        ∙ handle-returns signo p p' handled) in
    let (sp_lem, mm_lem) = entered signo sa page (with_frame signo pa cleared) in
    let at_frame : Trapframe.sp (Proc.trapframe q) ≡ page = same_sp ∙ rw (sym p'_lem) sp_lem in
    sigreturn_call-page q page pb
      (context_words (Ksignal.sigmask (Proc.signal p)) (Proc.trapframe p)) aligned (omega arith)
      at_frame (rw (sym at_frame) there_q)
      (kept ∙ rw (sym p'_lem, mm_lem) (context-with_frame signo cleared pa)) (words_count p) fits
    ∙ set_result-restore p q
