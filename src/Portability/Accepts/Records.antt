-- ===== src/Portability/Accepts/Records.antt =====
-- The loops of `validate_bundle` over the records and their bindings.
use symbiotic_foundation.Base.{
  String, Bool, true, false, ◌||◌, List, [], ◌∷◌, ◌++◌, map, All, contains, string_eq, str_iff,
  IsFresh, fresh_none, fresh_more, fresh_append, ◌≡◌, inl, inr, arith,
}
use symbiotic_foundation.Portability.Model.{
  Scope, RecordKey, key_eq, Binding, PortableRecord, record_key,
}
use symbiotic_foundation.Portability.Checked.{ok, Checked-cases}
use symbiotic_foundation.Portability.Checks.{validate_scope}
use symbiotic_foundation.Portability.Bundles.{
  check_binding, check_bindings, Seen, check_record, check_records,
}

abbrev pub binding_ids : List Binding → List String
binding_ids = map λ a. a.binding_id

-- A binding names an artifact that there is, and stays within the scope around it.
abbrev pub IsBound : List String → Scope → Binding → Type 0
IsBound artifacts around a =
    (contains a.artifact_id artifacts ≡ true) × (validate_scope a.scope around ≡ ok tt)

pub record BindingsPass (artifacts : List String) (around : Scope) (bindings : List Binding)
    (found out : List String) : Type 0 where
  pub bound : All (IsBound artifacts around) bindings
  pub ids : IsFresh (binding_ids bindings) found
  pub holds :
      (id : String) → contains id out ≡ (contains id (binding_ids bindings) || contains id found)

check_binding-passes :
    (is_date : String → Bool) (artifacts : List String) (around : Scope) (a : Binding)
    (found out : List String)
    → check_binding is_date artifacts around a found ≡ ok out
    → IsBound artifacts around a
      × (contains a.binding_id found ≡ false)
      × (out ≡ a.binding_id ∷ found)
unfolding check_binding
check_binding-passes is_date artifacts around a found out h = ground arith

pub check_bindings-pass :
    (is_date : String → Bool) (artifacts : List String) (around : Scope) (bindings : List Binding)
    (found out : List String)
    → check_bindings is_date artifacts around bindings found ≡ ok out
    → BindingsPass artifacts around bindings found out
unfolding check_bindings
check_bindings-pass is_date artifacts around [] found out h = record {
  bound = tt;
  ids = fresh_none found;
  holds = λ id. ground arith;
}
check_bindings-pass is_date artifacts around (a ∷ rest) found out h =
    elim (Checked-cases (check_binding is_date artifacts around a found)) [
      | inl (e, f) ↦ absurd (ground arith)
      | inr (next, f) ↦
          let p = check_binding-passes is_date artifacts around a found next f in
          let more = check_bindings-pass is_date artifacts around rest next out (rw f at h) in
          record {
            bound = (p.0, more.bound);
            ids = fresh_more a.binding_id (binding_ids rest) found p.1 (rw p.2 at more.ids);
            holds = λ id. ground (arith, more.holds id, p.2);
          }
    ]

module _ {V : Type 0} where
  abbrev pub all_binding_ids : List (PortableRecord V) → List String
  all_binding_ids [] = []
  all_binding_ids (r ∷ rs) = binding_ids r.artifact_bindings ++ all_binding_ids rs

  -- A record stays within the scope around it, in the space that it says it is in, and so do its
  -- bindings, which name artifacts that there are.
  pub record IsPlaced (artifacts : List String) (around : Scope) (r : PortableRecord V)
      : Type 0 where
    pub space : r.space ≡ r.scope.space
    pub within : validate_scope r.scope around ≡ ok tt
    pub bound : All (IsBound artifacts r.scope) r.artifact_bindings

  pub record RecordsPass (artifacts : List String) (around : Scope)
      (records : List (PortableRecord V)) (seen : Seen) : Type 0 where
    pub placed : All (IsPlaced artifacts around) records
    pub identities : IsFresh (map record_key records) seen.identities
    pub bindings : IsFresh (all_binding_ids records) seen.bindings

  check_record-passes :
      (is_date : String → Bool) (around : Scope) (identities : List RecordKey)
      (r : PortableRecord V)
      → check_record is_date around identities r ≡ ok tt
      → (contains (record_key r) identities ≡ false)
        × (r.space ≡ r.scope.space)
        × (validate_scope r.scope around ≡ ok tt)
  unfolding check_record
  check_record-passes is_date around identities r h = ground (arith, str_iff r.space r.scope.space)

  check_records-first :
      (is_date : String → Bool) (artifacts : List String) (around : Scope) (r : PortableRecord V)
      (rest : List (PortableRecord V)) (seen out : Seen)
      → check_records is_date artifacts around (r ∷ rest) seen ≡ ok out
      → (check_record is_date around seen.identities r ≡ ok tt)
        × ((bindings : List String) × (check_bindings is_date artifacts r.scope r.artifact_bindings
                seen.bindings
              ≡ ok bindings)
            × (check_records is_date artifacts around rest
                  (record { identities = record_key r ∷ seen.identities; bindings = bindings })
                ≡ ok out))
  unfolding check_records
  check_records-first is_date artifacts around r rest seen out h =
      elim (Checked-cases (check_record is_date around seen.identities r)) [
        | inl (e, f) ↦ absurd (ground arith)
        | inr (u, f) ↦
            elim (Checked-cases
              (check_bindings is_date artifacts r.scope r.artifact_bindings seen.bindings)) [
                | inl (e, g) ↦ absurd (ground arith)
                | inr (bindings, g) ↦ (f, (bindings, g, rw g at (rw f at h)))
              ]
      ]

  -- Every record is placed, and no identity and no identifier of a binding occurs twice.
  pub check_records-pass :
      (is_date : String → Bool) (artifacts : List String) (around : Scope)
      (records : List (PortableRecord V)) (seen out : Seen)
      → check_records is_date artifacts around records seen ≡ ok out
      → RecordsPass artifacts around records seen
  check_records-pass is_date artifacts around [] seen out h = record {
    placed = tt;
    identities = fresh_none seen.identities;
    bindings = fresh_none seen.bindings;
  }
  check_records-pass is_date artifacts around (r ∷ rest) seen out h =
      let (c, (bindings, b, m)) = check_records-first is_date artifacts around r rest seen out h in
      let p = check_record-passes is_date around seen.identities r c in
      let q =
        check_bindings-pass is_date artifacts r.scope r.artifact_bindings seen.bindings bindings
          b in
      let more =
        check_records-pass is_date artifacts around rest
          (record { identities = record_key r ∷ seen.identities; bindings = bindings }) out m in
      record {
        placed = (record { space = p.1; within = p.2; bound = q.bound }, more.placed);
        identities =
            fresh_more (record_key r) (map record_key rest) seen.identities p.0 more.identities;
        bindings =
            fresh_append (binding_ids r.artifact_bindings) (all_binding_ids rest) seen.bindings
              bindings q.ids more.bindings q.holds;
      }
