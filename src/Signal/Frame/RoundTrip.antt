-- ===== src/Signal/Frame/RoundTrip.antt =====
-- The words and the bytes of a context, and the registers that come back from it.
use os_project_signal.Prelude.{ℕ, ◌*◌, ◌^◌, ◌<◌, ◌≡◌, refl, List, [], ◌∷◌, length, arith, All}
use os_project_signal.Gef.Pack.{bytes_of, value_of}
use os_project_signal.Gef.Pack.RoundTrip.{value_of-bytes_of}
use os_project_signal.Signal.State.{Trapframe, Siginfo}
use os_project_signal.Signal.Frame.{
  sizeof_siginfo, context_words, words_to_bytes, bytes_to_words, siginfo_bytes, restored,
}

pub length-words_to_bytes : (words : List ℕ) → length (words_to_bytes words) ≡ 8 * length words
unfolding words_to_bytes bytes_of
length-words_to_bytes [] = refl
length-words_to_bytes (w ∷ words) = rw (length-words_to_bytes words) (omega arith)

pub length-siginfo_bytes : (info : Siginfo) → length (siginfo_bytes info) ≡ sizeof_siginfo
unfolding siginfo_bytes bytes_of
length-siginfo_bytes info = refl

pub bytes_to_words-words_to_bytes :
    (words : List ℕ)
    → All (λ w. w < 2 ^ 64) words
    → bytes_to_words (length words) (words_to_bytes words) ≡ words
unfolding words_to_bytes bytes_to_words bytes_of value_of
bytes_to_words-words_to_bytes [] h = refl
bytes_to_words-words_to_bytes (w ∷ words) (fits, rest) =
    rw (bytes_to_words-words_to_bytes words rest, value_of-bytes_of 8 w fits)

pub restored-context_words :
    (mask : ℕ) (tf : Trapframe) → restored (context_words mask tf) ≡ record tf { t6 = 0 }
unfolding restored context_words
restored-context_words mask tf = refl
