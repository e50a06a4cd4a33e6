-- ===== src/Signal/Frame.antt =====
-- What the kernel puts on the user's stack around a handler: `struct ucontext` and `siginfo_t`, in the
-- layout that the compiler gives them.
pub mod RoundTrip
use os_project_signal.Prelude.{
  ℕ, zero, suc, ◌+◌, ◌-◌, ◌*◌, ◌%◌, ◌^◌, List, [], ◌∷◌, ◌++◌, take, drop, Option, none, some,
  get_or, if◌then◌else◌,
}
use os_project_signal.Prelude.Int.{ℤ, pos, negsuc}
use os_project_signal.Gef.Pack.{bytes_of, value_of}
use os_project_signal.Signal.State.{Trapframe, Siginfo}

abbrev pub sizeof_siginfo : ℕ
sizeof_siginfo = 24

abbrev pub sizeof_ucontext : ℕ
sizeof_ucontext = 264

-- The 33 words of `struct ucontext`: the mask, the program counter and `regs[31]`, with 0 for the
-- register zero. `t6` has no place in the array.
unfoldable pub context_words : ℕ → Trapframe → List ℕ
context_words mask tf =
    mask ∷ tf.epc ∷ 0 ∷ tf.ra ∷ tf.sp ∷ tf.gp ∷ tf.tp ∷ tf.t0 ∷ tf.t1 ∷ tf.t2 ∷ tf.s0 ∷ tf.s1
    ∷ tf.a0 ∷ tf.a1 ∷ tf.a2 ∷ tf.a3 ∷ tf.a4 ∷ tf.a5 ∷ tf.a6 ∷ tf.a7 ∷ tf.s2 ∷ tf.s3 ∷ tf.s4 ∷ tf.s5
    ∷ tf.s6 ∷ tf.s7 ∷ tf.s8 ∷ tf.s9 ∷ tf.s10 ∷ tf.s11 ∷ tf.t3 ∷ tf.t4 ∷ tf.t5 ∷ []

unfoldable pub words_to_bytes : List ℕ → List ℕ
unfolding bytes_of
words_to_bytes [] = []
words_to_bytes (w ∷ words) = bytes_of 8 w ++ words_to_bytes words

unfoldable pub bytes_to_words : ℕ → List ℕ → List ℕ
unfolding value_of
bytes_to_words zero bytes = []
bytes_to_words (suc n) bytes = value_of (take 8 bytes) ∷ bytes_to_words n (drop 8 bytes)

-- An int as its 32-bit pattern.
abbrev pub int_pattern : ℤ → ℕ
int_pattern (pos n) = n % 2 ^ 32
int_pattern (negsuc n) = 2 ^ 32 - 1 - n % 2 ^ 32

unfoldable pub siginfo_bytes : Siginfo → List ℕ
unfolding bytes_of
siginfo_bytes info =
    bytes_of 4 (int_pattern info.si_signo)
    ++ bytes_of 4 (int_pattern info.si_code)
    ++ bytes_of 4 (int_pattern info.si_pid)
    ++ bytes_of 4 (int_pattern info.si_status)
    ++ bytes_of 8 info.addr

-- The assignments of `sys_sigreturn` from the words of the context. `t6` is cleared.
unfoldable pub restored : List ℕ → Trapframe
restored words =
    let word = λ (i : ℕ). get_or words i 0 in
    record {
      epc = word 1;
      ra = word 3;
      sp = word 4;
      gp = word 5;
      tp = word 6;
      t0 = word 7;
      t1 = word 8;
      t2 = word 9;
      s0 = word 10;
      s1 = word 11;
      a0 = word 12;
      a1 = word 13;
      a2 = word 14;
      a3 = word 15;
      a4 = word 16;
      a5 = word 17;
      a6 = word 18;
      a7 = word 19;
      s2 = word 20;
      s3 = word 21;
      s4 = word 22;
      s5 = word 23;
      s6 = word 24;
      s7 = word 25;
      s8 = word 26;
      s9 = word 27;
      s10 = word 28;
      s11 = word 29;
      t3 = word 30;
      t4 = word 31;
      t5 = word 32;
      t6 = 0;
    }

abbrev pub restored_mask : List ℕ → ℕ
restored_mask words = get_or words 0 0
