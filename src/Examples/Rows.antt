-- ===== src/Examples/Rows.antt =====
-- The theorem on the texts of the enumerations in crates/hookbox-postgres/src/storage.rs at concrete values.
use Prim.Native.String.{◌++◌ as text_append}
use Prim.Native.String.append
use hookbox.Prelude.{String, ok, ◌>>=◌, ◌≡◌, refl, ap, ◌∙◌, sym}
use hookbox.Domain.{ProcessingState, VerificationStatus, DeliveryState, fmt}
use hookbox.Postgres.Columns.{
  SerdeJson, quoted, processing_state_name, verification_status_name, processing_states,
  verification_statuses, delivery_states, serialize_enum, deserialize_enum,
}
use hookbox.Postgres.Decoded.{ReadsNames, deserialize_enum-serialize_enum}

drop_last : String → String
drop_last String.[] = String.[]
drop_last (String.◌∷◌ c String.[]) = String.[]
drop_last (String.◌∷◌ c (String.◌∷◌ d s)) = String.◌∷◌ c (drop_last (String.◌∷◌ d s))

drop_first : String → String
drop_first String.[] = String.[]
drop_first (String.◌∷◌ c s) = s

drop_last-append : (s : String) → drop_last (text_append s "\"") ≡ s
unfolding drop_last
drop_last-append String.[] = refl
drop_last-append (String.◌∷◌ c String.[]) = rw append.cons refl
drop_last-append (String.◌∷◌ c (String.◌∷◌ d s)) =
    ap drop_last (append.cons c (String.◌∷◌ d s) "\"")
    ∙ ap (λ t. drop_last (String.◌∷◌ c t)) (append.cons d s "\"")
    ∙ ap (String.◌∷◌ c)
        (ap drop_last (sym (append.cons d s "\"")) ∙ drop_last-append (String.◌∷◌ d s))

abbrev pub serde : SerdeJson
unfolding drop_last drop_first
serde = record {
  to_string = λ s. ok (quoted s);
  from_str = λ t. ok (drop_last (drop_first t));
  unknown_variant = λ s. s;
}

serde-ReadsNames : ReadsNames serde
unfolding serde drop_first
serde-ReadsNames = record {
  prints = λ s n. refl;
  reads = λ s n.
      ap (λ t. ok (drop_last (drop_first t))) (append.cons _ String.[] (text_append s "\""))
      ∙ ap (λ t. ok (drop_last t)) (append.nil (text_append s "\""))
      ∙ ap ok (drop_last-append s);
}

deserialize_enum-serialize_enum_example :
    ((serialize_enum serde (processing_state_name ProcessingState.emit_failed)
        >>= deserialize_enum serde processing_states)
      ≡ ok ProcessingState.emit_failed)
    × ((serialize_enum serde (verification_status_name VerificationStatus.skipped)
          >>= deserialize_enum serde verification_statuses)
        ≡ ok VerificationStatus.skipped)
    × (deserialize_enum serde delivery_states (fmt DeliveryState.in_flight)
        ≡ ok DeliveryState.in_flight)
deserialize_enum-serialize_enum_example =
    deserialize_enum-serialize_enum serde serde-ReadsNames ProcessingState.emit_failed
      VerificationStatus.skipped DeliveryState.in_flight
