-- ===== src/Web/Sse/Chunks.antt =====
-- Where the chunks are cut does not matter to what is read.
use Prim.Native.String.{◌++◌}
use Prim.Native.String.append.{nil as nil-append}
use jobilee.Prelude.{
  Option-cases, inl, inr, ℕ, zero, suc, ◌<◌, ◌≡◌, refl, sym, ◌∙◌, ap, arith, String, Option, none,
  some, List, nat_eq, split_first, size,
}
use jobilee.Prelude.Text.Split.{
  split_first-size, split_first-append, append-size, append_assoc, append-empty,
}
use jobilee.Web.Sse.{
  SseMessage, Drained, drain_from, drain, before, read_chunks, parse_event, yielded,
}

drain_from-stop :
    (f : ℕ) (b : String)
    → split_first "\n\n" b ≡ none
    → drain_from (suc f) b ≡ record { messages = List.[]; buffer = b }
unfolding drain_from
drain_from-stop f b h = rw (drain_from, h) refl

drain_from-next :
    (f : ℕ) (b raw rest : String)
    → split_first "\n\n" b ≡ some (raw, rest)
    → drain_from (suc f) b ≡ yielded (parse_event raw) (drain_from f rest)
unfolding drain_from
drain_from-next f b raw rest h = rw (drain_from, h) refl

-- More fuel than the buffer has characters changes nothing.
drain_from-enough :
    (f g : ℕ) (buffer : String)
    → size buffer < f
    → size buffer < g
    → drain_from f buffer ≡ drain_from g buffer
unfolding drain_from size
drain_from-enough zero g buffer hf hg = absurd (omega arith)
drain_from-enough (suc f) zero buffer hf hg = absurd (omega arith)
drain_from-enough (suc f) (suc g) buffer hf hg = elim (Option-cases (split_first "\n\n" buffer)) [
  | inl e ↦ rw (drain_from-stop f buffer e, drain_from-stop g buffer e) refl
  | inr ((raw, rest), e) ↦
      rw (drain_from-next f buffer raw rest e, drain_from-next g buffer raw rest e)
        (ap (yielded (parse_event raw)) (
          drain_from-enough f g rest (omega (arith, split_first-size "\n\n" buffer raw rest e))
            (omega (arith, split_first-size "\n\n" buffer raw rest e))))
]

yielded-buffer : (o : Option SseMessage) (d : Drained) → (yielded o d).buffer ≡ d.buffer
yielded-buffer none d = refl
yielded-buffer (some m) d = refl

yielded-before :
    (o : Option SseMessage) (d e : Drained)
    → yielded o (before d.messages e) ≡ before (yielded o d).messages e
yielded-before none d e = refl
yielded-before (some m) d e = refl

-- The inner loop ends for want of a separator, not of fuel.
drain_from-separated :
    (f : ℕ) (buffer : String)
    → size buffer < f
    → split_first "\n\n" (drain_from f buffer).buffer ≡ none
unfolding drain_from size
drain_from-separated zero buffer hf = absurd (omega arith)
drain_from-separated (suc f) buffer hf = elim (Option-cases (split_first "\n\n" buffer)) [
  | inl e ↦ rw (drain_from-stop f buffer e) e
  | inr ((raw, rest), e) ↦
      rw (drain_from-next f buffer raw rest e, yielded-buffer (parse_event raw) (drain_from f rest))
        (drain_from-separated f rest (omega (arith, split_first-size "\n\n" buffer raw rest e)))
]

-- Draining a text that grew: what was read stays read, and reading goes on from the buffer.
drain_from-append :
    (f g : ℕ) (s t : String)
    → size s < f
    → size (s ++ t) < g
    → drain_from g (s ++ t)
      ≡ before (drain_from f s).messages (drain ((drain_from f s).buffer ++ t))
unfolding drain_from drain size
drain_from-append zero g s t hf hg = absurd (omega arith)
drain_from-append (suc f) zero s t hf hg = absurd (omega arith)
drain_from-append (suc f) (suc g) s t hf hg = elim (Option-cases (split_first "\n\n" s)) [
  | inl e ↦
      rw (drain_from-stop f s e)
        (drain_from-enough (suc g) (suc (size (s ++ t))) (s ++ t) hg (omega arith))
  | inr ((raw, rest), e) ↦
      rw
        (
          drain_from-next f s raw rest e,
          drain_from-next g (s ++ t) raw (rest ++ t) (split_first-append "\n\n" s t raw rest e),
          drain_from-append f g rest t (omega (arith, split_first-size "\n\n" s raw rest e)) (
              omega
                (arith, append-size s t, append-size rest t, split_first-size "\n\n" s raw rest e)),
          yielded-buffer (parse_event raw) (drain_from f rest),
        )
        (yielded-before (parse_event raw) (drain_from f rest)
          (drain ((drain_from f rest).buffer ++ t)))
]

pub drain-append :
    (s t : String) → drain (s ++ t) ≡ before (drain s).messages (drain ((drain s).buffer ++ t))
unfolding drain
drain-append s t =
    drain_from-append (suc (size s)) (suc (size (s ++ t))) s t (omega arith) (omega arith)

-- After the inner loop the buffer holds no complete event: the loop ends because no separator is
-- left in the buffer, never because the fuel that `drain` gives it is spent.
pub drain-terminates : (buffer : String) → split_first "\n\n" (drain buffer).buffer ≡ none
unfolding drain
drain-terminates buffer = drain_from-separated (suc (size buffer)) buffer (omega arith)

-- the whole text of a stream
unfoldable pub whole : List String → String
whole List.[] = ""
whole (List.◌∷◌ chunk chunks) = chunk ++ whole chunks

pub drain-drained :
    (b : String) → split_first "\n\n" b ≡ none → drain b ≡ record { messages = List.[]; buffer = b }
unfolding drain
drain-drained b h = drain_from-stop (size b) b h

read_chunks-whole :
    (b : String) (chunks : List String)
    → split_first "\n\n" b ≡ none
    → read_chunks b chunks ≡ drain (b ++ whole chunks)
unfolding read_chunks whole
read_chunks-whole b List.[] h = rw append-empty (sym (drain-drained b h))
read_chunks-whole b (List.◌∷◌ c cs) h =
    rw
      (
        read_chunks-whole (drain (b ++ c)).buffer cs (drain-terminates (b ++ c)),
        sym (append_assoc b c (whole cs)),
      )
      (sym (drain-append (b ++ c) (whole cs)))

-- However the text of a stream is cut into chunks, reading the chunks one after the other yields the
-- messages, and leaves the buffer, that parsing the whole text at once does.
pub read_chunks-chunking : (chunks : List String) → read_chunks "" chunks ≡ drain (whole chunks)
unfolding split_first
read_chunks-chunking chunks =
    read_chunks-whole "" chunks refl ∙ ap drain (nil-append (whole chunks))

two : size "\n\n" ≡ 2
unfolding size
two = refl

-- One turn of the inner loop.
pub drain-next :
    (b raw rest : String)
    → split_first "\n\n" b ≡ some (raw, rest)
    → drain b ≡ yielded (parse_event raw) (drain rest)
unfolding drain
drain-next b raw rest h = rw (drain_from-next (size b) b raw rest h) (
    ap (yielded (parse_event raw)) (
      drain_from-enough (size b) (suc (size rest)) rest
        (omega (arith, split_first-size "\n\n" b raw rest h, two)) (omega arith)))
