-- ===== src/Router/Peers/Listed.antt =====
-- internal/router/peers.go: a peer that is added comes back in the list.
use awg_proxy_go.Prelude.{
  ◌≡◌, ◌≢◌, ◌&&◌, refl, sym, subst, ap, ◌∙◌, true, false, Bool, Bool-cases, String, [], ◌∷◌, none,
  some, some_inj, inl, inr, arith,
}
use awg_proxy_go.Prelude.Eq.{◌==◌, string_eq, ne-equals, equals-cases}
use awg_proxy_go.Prelude.Dict.{lookup, insert, Distinct, Distinct-insert}
use awg_proxy_go.Router.Api.{Row, value}
use awg_proxy_go.Router.Table.{Agrees, Agrees-lookup, IsFilled}
use awg_proxy_go.Router.Peers.{
  Peer, peer_from_map, bool_str, numeric_field, without_empty, with_key, body,
}

-- What RouterOS keeps of a peer: a private key stands for the public one, and an empty number is not
-- sent.
abbrev pub IsStored : String → Peer → Peer → Type 0
IsStored iface p q =
    (q.interface ≡ iface)
    × (q.disabled ≡ p.disabled)
    × (q.name ≡ p.name)
    × (q.comment ≡ p.comment)
    × (q.preshared_key ≡ p.preshared_key)
    × (q.allowed_address ≡ p.allowed_address)
    × (q.endpoint_address ≡ p.endpoint_address)
    × (p.endpoint_port ≢ "" → q.endpoint_port ≡ p.endpoint_port)
    × (p.persistent_keepalive ≢ "" → q.persistent_keepalive ≡ p.persistent_keepalive)
    × (p.private_key ≢ "" → q.private_key ≡ p.private_key)
    × (p.private_key ≡ "" → q.public_key ≡ p.public_key)

lookup-without_empty :
    (k v : String) (m : Row)
    → lookup k m ≡ some v
    → (v == "" && numeric_field k) ≡ false
    → lookup k (without_empty m) ≡ some v
unfolding lookup without_empty
lookup-without_empty k v [] h full = cc
lookup-without_empty k v ((j, w) ∷ m) h full = elim (Bool-cases (j == k)) [
  | inl same ↦
      let e : j ≡ k = (string_eq.equals_iff j k).0 same in
      let f : w ≡ v = some_inj (ground (arith, h, same)) in
      let keep : (w == "" && numeric_field j) ≡ false = rw (e, f) full in
      rw keep (rw same (ap some f))
  | inr other ↦ ground (arith, other, h, lookup-without_empty k v m)
]

without_empty-none : (k : String) (m : Row) → lookup k m ≡ none → lookup k (without_empty m) ≡ none
unfolding lookup without_empty
without_empty-none k [] h = refl
without_empty-none k ((j, w) ∷ m) h = ground (arith, h, without_empty-none k m)

Distinct-without_empty : (m : Row) → Distinct m → Distinct (without_empty m)
unfolding without_empty
Distinct-without_empty [] h = tt
Distinct-without_empty ((j, w) ∷ m) h = elim (Bool-cases (w == "" && numeric_field j)) [
  | inl drop ↦ rw drop (Distinct-without_empty m h.1)
  | inr keep ↦ rw keep (without_empty-none j m h.0, Distinct-without_empty m h.1)
]

without_empty-IsFilled : (m : Row) → IsFilled (without_empty m)
unfolding without_empty numeric_field
without_empty-IsFilled [] = tt
without_empty-IsFilled ((k, v) ∷ m) = elim (Bool-cases (v == "" && numeric_field k)) [
  | inl drop ↦ rw drop (without_empty-IsFilled m)
  | inr keep ↦ rw keep (
    (λ number empty. ground (arith, keep, number, (string_eq.equals_iff v "").1 empty)),
    without_empty-IsFilled m,
  )
]

bool_str-true : (b : Bool) → (bool_str b == "true") ≡ b
bool_str-true true = refl
bool_str-true false = refl

module _ (iface : String) (p : Peer) where
  abbrev base : Row
  base =
      ("name", p.name)
      ∷ ("allowed-address", p.allowed_address)
      ∷ ("endpoint-address", p.endpoint_address)
      ∷ ("endpoint-port", p.endpoint_port)
      ∷ ("persistent-keepalive", p.persistent_keepalive)
      ∷ ("preshared-key", p.preshared_key)
      ∷ ("comment", p.comment)
      ∷ ("disabled", bool_str p.disabled)
      ∷ []

  abbrev with_private : Row
  with_private = insert "interface" iface (insert "private-key" p.private_key base)

  abbrev with_public : Row
  with_public = insert "interface" iface (insert "public-key" p.public_key base)

  with_key_private :
      (m : Row) → p.private_key ≢ "" → with_key p m ≡ insert "private-key" p.private_key m
  unfolding with_key
  with_key_private m h = rw (ne-equals p.private_key "" h) refl

  with_key_public :
      (m : Row) → p.private_key ≡ "" → with_key p m ≡ insert "public-key" p.public_key m
  unfolding with_key
  with_key_public m h = rw ((string_eq.equals_iff p.private_key "").1 h) refl

  body_private : p.private_key ≢ "" → body iface p true ≡ without_empty with_private
  unfolding body
  body_private h = ap (λ m. without_empty (insert "interface" iface m)) (with_key_private base h)

  body_public : p.private_key ≡ "" → body iface p true ≡ without_empty with_public
  unfolding body
  body_public h = ap (λ m. without_empty (insert "interface" iface m)) (with_key_public base h)

  base-Distinct : Distinct base
  unfolding lookup
  base-Distinct = (refl, (refl, (refl, (refl, (refl, (refl, (refl, (refl, tt))))))))

  pub body-Distinct : Distinct (body iface p true)
  body-Distinct = elim (equals-cases {A = String} p.private_key "") [
    | inl e ↦ subst Distinct (sym (body_public e)) (
        Distinct-without_empty with_public (
          Distinct-insert "interface" iface _
            (Distinct-insert "public-key" p.public_key base base-Distinct)))
    | inr e ↦ subst Distinct (sym (body_private e)) (
        Distinct-without_empty with_private (
          Distinct-insert "interface" iface _
            (Distinct-insert "private-key" p.private_key base base-Distinct)))
  ]

  pub body-IsFilled : IsFilled (body iface p true)
  unfolding body
  body-IsFilled = without_empty-IsFilled (insert "interface" iface (with_key p base))

  body-lookup :
      (k v : String)
      → lookup k with_private ≡ some v
      → lookup k with_public ≡ some v
      → (v == "" && numeric_field k) ≡ false
      → lookup k (body iface p true) ≡ some v
  body-lookup k v h h' full = elim (equals-cases {A = String} p.private_key "") [
    | inl e ↦ ap (lookup k) (body_public e) ∙ lookup-without_empty k v with_public h' full
    | inr e ↦ ap (lookup k) (body_private e) ∙ lookup-without_empty k v with_private h full
  ]

  pub body_no_id : lookup ".id" (body iface p true) ≡ none
  unfolding lookup insert
  body_no_id = elim (equals-cases {A = String} p.private_key "") [
    | inl e ↦ ap (lookup ".id") (body_public e) ∙ without_empty-none ".id" with_public refl
    | inr e ↦ ap (lookup ".id") (body_private e) ∙ without_empty-none ".id" with_private refl
  ]

  text_field : (k v : String) → numeric_field k ≡ false → (v == "" && numeric_field k) ≡ false
  text_field k v e = ground (arith, e)

  number_field : (k v : String) → v ≢ "" → (v == "" && numeric_field k) ≡ false
  number_field k v h = ground (arith, ne-equals v "" h)

  pub stored : (x : Row) → Agrees x (body iface p true) → IsStored iface p (peer_from_map x)
  unfolding lookup insert numeric_field peer_from_map
  stored x a =
      let at : (k v : String) → lookup k (body iface p true) ≡ some v → value k x ≡ v =
        λ k v h. Agrees-lookup x (body iface p true) k v a h in
      let sent : (k v : String)
          → lookup k with_private ≡ some v
          → lookup k with_public ≡ some v
          → numeric_field k ≡ false
          → value k x ≡ v =
        λ k v h h' e. at k v (body-lookup k v h h' (text_field k v e)) in
      (
        sent "interface" iface refl refl refl,
        ap (λ v. v == "true") (sent "disabled" (bool_str p.disabled) refl refl refl)
            ∙ bool_str-true p.disabled,
        sent "name" p.name refl refl refl,
        sent "comment" p.comment refl refl refl,
        sent "preshared-key" p.preshared_key refl refl refl,
        sent "allowed-address" p.allowed_address refl refl refl,
        sent "endpoint-address" p.endpoint_address refl refl refl,
        (λ h. at "endpoint-port" p.endpoint_port (
            body-lookup "endpoint-port" p.endpoint_port refl refl
              (number_field "endpoint-port" p.endpoint_port h))),
        (λ h. at "persistent-keepalive" p.persistent_keepalive (
            body-lookup "persistent-keepalive" p.persistent_keepalive refl refl
              (number_field "persistent-keepalive" p.persistent_keepalive h))),
        (λ h. at "private-key" p.private_key (
            ap (lookup "private-key") (body_private h)
            ∙ lookup-without_empty "private-key" p.private_key with_private refl
                (text_field "private-key" p.private_key refl))),
        (λ h. at "public-key" p.public_key (
            ap (lookup "public-key") (body_public h)
            ∙ lookup-without_empty "public-key" p.public_key with_public refl
                (text_field "public-key" p.public_key refl))),
      )
