-- ===== src/Logger/Redaction.antt =====
-- What the sanitizer redacts in a log line. It does not look into an Error.
use jobilee.Prelude.{
  ℕ, zero, suc, ◌≡◌, refl, Bool-cases, inl, inr, String, true, List, [], ◌∷◌, arith, ◌==◌, nat_eq,
  string_eq,
}
use jobilee.Logger.Levels.{LogLevel}
use jobilee.Logger.Sanitizer.{
  Value, scalar, bigint, date, error_value, reference, Fields, Node, array, object, Heap, a_string,
  Clean, leaf, serialized, cleaned_array, cleaned_object, CleanItems, no_items, item, CleanFields,
  no_fields, field, is_redacted, has_seen, sanitize, sanitize_items, sanitize_fields, sanitize_node,
}
use jobilee.Logger.{put_clean, merge, merge_clean, stamp, Logger, log_record}

-- What is cleaned with so many levels left: every field with a sensitive key reads "[redacted]", at
-- every level, and there are no more levels. Of what a serialized error
-- carries nothing is asked, since the sanitizer leaves it as it is.
abbrev mutual
  pub IsRedacted : Clean → ℕ → Type 0
  IsRedacted (leaf s) n = Unit
  IsRedacted (serialized e) n = Unit
  IsRedacted (cleaned_array cs) zero = ⊥
  IsRedacted (cleaned_array cs) (suc n) = AreRedacted cs n
  IsRedacted (cleaned_object cs) zero = ⊥
  IsRedacted (cleaned_object cs) (suc n) = AreRedactedFields cs n

  pub AreRedacted : CleanItems → ℕ → Type 0
  AreRedacted no_items n = Unit
  AreRedacted (item c cs) n = IsRedacted c n × AreRedacted cs n

  pub AreRedactedFields : CleanFields → ℕ → Type 0
  AreRedactedFields no_fields n = Unit
  AreRedactedFields (field key c cs) n =
      ((is_redacted key ≡ true → c ≡ leaf (a_string "[redacted]")) × IsRedacted c n)
      × AreRedactedFields cs n

module _ (each : Value → List ℕ → Clean × List ℕ) (n : ℕ)
    (h : (v : Value) (seen : List ℕ) → IsRedacted (each v seen).0 n) where
  items-AreRedacted :
      (vs : List Value) (seen : List ℕ) → AreRedacted (sanitize_items each vs seen).0 n
  unfolding sanitize_items
  items-AreRedacted [] seen = tt
  items-AreRedacted (v ∷ vs) seen = (h v seen, items-AreRedacted vs (each v seen).1)

  fields-AreRedactedFields :
      (fs : Fields) (seen : List ℕ) → AreRedactedFields (sanitize_fields each fs seen).0 n
  unfolding sanitize_fields
  fields-AreRedactedFields [] seen = tt
  fields-AreRedactedFields ((key, v) ∷ rest) seen = elim (Bool-cases (is_redacted key)) [
    | inl e ↦ rw (sanitize_fields, e) (((λ _. refl), tt), fields-AreRedactedFields rest seen)
    | inr e ↦
        rw (sanitize_fields, e)
          (((λ k. ground arith), h v seen), fields-AreRedactedFields rest (each v seen).1)
  ]

  node-IsRedacted : (x : Node) (seen : List ℕ) → IsRedacted (sanitize_node each x seen).0 (suc n)
  unfolding sanitize_node
  node-IsRedacted (array vs) seen = items-AreRedacted vs seen
  node-IsRedacted (object fs) seen = fields-AreRedactedFields fs seen

sanitize-IsRedacted :
    (heap : Heap) (left : ℕ) (v : Value) (seen : List ℕ)
    → IsRedacted (sanitize heap left v seen).0 left
unfolding sanitize
sanitize-IsRedacted heap zero (scalar s) seen = tt
sanitize-IsRedacted heap zero (bigint s) seen = tt
sanitize-IsRedacted heap zero (error_value e) seen = tt
sanitize-IsRedacted heap zero (date s) seen = tt
sanitize-IsRedacted heap zero (reference a) seen = tt
sanitize-IsRedacted heap (suc left) (scalar s) seen = tt
sanitize-IsRedacted heap (suc left) (bigint s) seen = tt
sanitize-IsRedacted heap (suc left) (error_value e) seen = tt
sanitize-IsRedacted heap (suc left) (date s) seen = tt
sanitize-IsRedacted heap (suc left) (reference a) seen = elim (Bool-cases (has_seen a seen)) [
  | inl e ↦ rw e tt
  | inr e ↦ rw e (
      node-IsRedacted (sanitize heap left) left (sanitize-IsRedacted heap left) (heap a) (a ∷ seen))
]

-- a field by itself
abbrev IsRedactedField : String → Clean → ℕ → Type 0
IsRedactedField key c n =
    (is_redacted key ≡ true → c ≡ leaf (a_string "[redacted]")) × IsRedacted c n

put_clean-AreRedactedFields :
    (key : String) (c : Clean) (fs : CleanFields) (n : ℕ)
    → IsRedactedField key c n
    → AreRedactedFields fs n
    → AreRedactedFields (put_clean key c fs) n
unfolding put_clean
put_clean-AreRedactedFields key c no_fields n h k = (h, tt)
put_clean-AreRedactedFields key c (field l d rest) n h k = elim (Bool-cases (l == key)) [
  | inl e ↦ rw (put_clean, e) (h, k.1)
  | inr e ↦ rw (put_clean, e) (k.0, put_clean-AreRedactedFields key c rest n h k.1)
]

merge_clean-AreRedactedFields :
    (a b : CleanFields) (n : ℕ)
    → AreRedactedFields a n
    → AreRedactedFields b n
    → AreRedactedFields (merge_clean a b) n
unfolding merge_clean
merge_clean-AreRedactedFields a no_fields n h k = h
merge_clean-AreRedactedFields a (field key c b) n h k =
    merge_clean-AreRedactedFields (put_clean key c a) b n
      (put_clean-AreRedactedFields key c a n k.0 h) k.1

stamp-AreRedactedFields :
    (logger : Logger) (time : String) (level : LogLevel) (msg : String)
    → AreRedactedFields (stamp logger time level msg) 7
unfolding is_redacted
stamp-AreRedactedFields logger time level msg =
    (((λ e. cc), tt), (((λ e. cc), tt), (((λ e. cc), tt), (((λ e. cc), tt), tt))))

-- In the record of a log line every field outside of serialized errors whose name is sensitive, in any
-- case, reads "[redacted]", at every depth that arrays and objects reach there, and they reach no deeper
-- than seven levels below the record, whatever the heap holds, cycles included. Nothing is said of what
-- a serialized error carries, as its cause or its code.
pub log_record-AreRedactedFields :
    (heap : Heap) (logger : Logger) (time : String) (level : LogLevel) (msg : String)
    (fields : Fields)
    → AreRedactedFields (log_record heap logger time level msg fields) 7
unfolding log_record
log_record-AreRedactedFields heap logger time level msg fields =
    merge_clean-AreRedactedFields (stamp logger time level msg)
      (sanitize_fields (sanitize heap 7) (merge logger.bindings fields) []).0 7
      (stamp-AreRedactedFields logger time level msg)
      (fields-AreRedactedFields (sanitize heap 7) 7 (sanitize-IsRedacted heap 7)
        (merge logger.bindings fields) [])
