-- ===== src/Logger/Tests.antt =====
-- A logger that is handed a password, a cycle and an error.
use jobilee.Prelude.{zero, suc, ◌≡◌, refl, none, some, [], ◌∷◌}
use jobilee.Logger.Levels.{info, debug}
use jobilee.Logger.Sanitizer.{
  scalar, reference, array, object, Heap, a_string, a_number, leaf, cleaned_array, cleaned_object,
  no_items, item, no_fields, field,
}
use jobilee.Logger.{Logger, Sink, child, log_record, emit}
use jobilee.Logger.Redaction.{AreRedactedFields, log_record-AreRedactedFields}

-- the object at 0 holds a list, which holds the object
abbrev heap : Heap
heap zero = object (
    ("accessToken", scalar (a_string "x"))
    ∷ ("id", scalar (a_number 7))
    ∷ ("all", reference 1)
    ∷ [])
heap (suc a) = array (reference 0 ∷ scalar (a_string "y") ∷ [])

abbrev logger : Logger
logger = record {
  level = info;
  service = "jobs-service";
  bindings = ("Password", reference 1) ∷ [];
}

record_test :
    log_record heap logger "now" info "hello" (("user", reference 0) ∷ [])
    ≡ field "time" (leaf (a_string "now")) (
        field "level" (leaf (a_string "info")) (
          field "service" (leaf (a_string "jobs-service")) (
            field "msg" (leaf (a_string "hello")) (
              field "Password" (leaf (a_string "[redacted]")) (
                field "user"
                  (cleaned_object (
                    field "accessToken" (leaf (a_string "[redacted]")) (
                      field "id" (leaf (a_number 7)) (
                        field "all"
                          (cleaned_array (
                            item
                              (leaf (a_string "[circular]"))
                              (item (leaf (a_string "y")) no_items)))
                          no_fields))))
                  no_fields)))))
unfolding log_record
record_test = refl

abbrev sink : Sink
sink = record { stringify = λ r. some "line"; stringify_texts = λ r. "fallback" }

emit_test : emit sink heap logger "now" debug "hello" [] ≡ none
unfolding emit
emit_test = refl

log_record-AreRedactedFields_example :
    AreRedactedFields
      (log_record heap
        (child logger (("token", scalar (a_string "x")) ∷ []))
        "now"
        info
        "hello"
        (("user", reference 0) ∷ []))
      7
log_record-AreRedactedFields_example =
    log_record-AreRedactedFields heap (child logger (("token", scalar (a_string "x")) ∷ [])) "now"
      info "hello" (("user", reference 0) ∷ [])
