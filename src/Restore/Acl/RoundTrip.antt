-- ===== src/Restore/Acl/RoundTrip.antt =====
-- An aclitem as postgres prints it, read back.
use pg_snapshot.Base.{
  ℕ, ◌≡◌, refl, sym, ◌∙◌, ap, ◌≢◌, ◌⊎◌, inl, inr, Bool, true, false, List, [], ◌∷◌, ◌++◌, some,
}
use pg_snapshot.Base.{if◌then◌else◌, ◌==◌, arith, All, Bool-cases, append_assoc, append-nil}
use pg_snapshot.Base.Bytes.{Bytes, cut, has_prefix, Lacks}
use pg_snapshot.Restore.Acl.{AclPriv, quoted_from, prepend, found_pair, split_acl_grantee}
use pg_snapshot.Restore.Acl.{mark_last, privs_from, parse_acl_item}

-- A name with its quotes doubled.
abbrev pub doubled : Bytes → Bytes
doubled [] = []
doubled (c ∷ s) = if c == b'"' then b'"' ∷ b'"' ∷ doubled s else c ∷ doubled s

-- How postgres prints a grantee: between quotes, or bare if the name has no quote and no "=".
abbrev pub Printed : Bytes → Bytes → Type 0
Printed name text =
    (text ≡ b'"' ∷ (doubled name ++ b'"' ∷ []))
    ⊎ ((text ≡ name) × Lacks b'=' name × Lacks b'"' name)

abbrev pub print_privs : List AclPriv → Bytes
print_privs [] = []
print_privs (p ∷ ps) = if p.option then p.char ∷ b'*' ∷ print_privs ps else p.char ∷ print_privs ps

-- A privilege's character.
abbrev pub IsPriv : AclPriv → Type 0
IsPriv p = (p.char ≢ b'*') × (p.char ≢ b'/')

quoted_from-doubled :
    (name rest : Bytes) → quoted_from false (doubled name ++ b'"' ∷ b'=' ∷ rest) ≡ some (name, rest)
unfolding quoted_from
quoted_from-doubled [] rest = refl
quoted_from-doubled (c ∷ s) rest = elim (Bool-cases (c == b'"')) [
  | inl e ↦ rw e (ap (prepend b'"') (quoted_from-doubled s rest) ∙ ground (arith, e))
  | inr e ↦ rw (e, e) (ap (prepend c) (quoted_from-doubled s rest))
]

cut-Lacks :
    (name rest : Bytes) (b : ℕ)
    → Lacks b name
    → cut (name ++ b ∷ rest) (b ∷ []) ≡ (name, rest, true)
unfolding cut has_prefix
cut-Lacks [] rest b h = ground arith
cut-Lacks (c ∷ s) rest b (hc, h) = ground (arith, hc, cut-Lacks s rest b h)

print_privs-Lacks : (ps : List AclPriv) → All IsPriv ps → Lacks b'/' (print_privs ps)
print_privs-Lacks [] h = tt
print_privs-Lacks (p ∷ ps) ((star, slash), h) = elim (Bool-cases p.option) [
  | inl e ↦ rw e (slash, ((λ x. omega (arith, x)), print_privs-Lacks ps h))
  | inr e ↦ rw e (slash, print_privs-Lacks ps h)
]

mark_last-append :
    (acc : List AclPriv) (p : AclPriv)
    → mark_last (acc ++ p ∷ []) ≡ acc ++ record p { option = true } ∷ []
unfolding mark_last
mark_last-append [] p = refl
mark_last-append (a ∷ []) p = refl
mark_last-append (a ∷ b ∷ acc) p = ap (λ r. a ∷ r) (mark_last-append (b ∷ acc) p)

privs_from-char :
    (acc : List AclPriv) (c : ℕ) (rest : Bytes)
    → c ≢ b'*'
    → privs_from acc (c ∷ rest) ≡ privs_from (acc ++ record { char = c; option = false } ∷ []) rest
unfolding privs_from
privs_from-char acc c rest star =
    let plain : (c == b'*') ≡ false = ground (arith, star) in rw (plain, privs_from) refl

privs_from-one :
    (acc : List AclPriv) (c : ℕ) (o : Bool) (rest : Bytes)
    → c ≢ b'*'
    → privs_from acc (if o then c ∷ b'*' ∷ rest else c ∷ rest)
      ≡ privs_from (acc ++ record { char = c; option = o } ∷ []) rest
unfolding privs_from
privs_from-one acc c true rest star =
    privs_from-char acc c (b'*' ∷ rest) star
    ∙ ap (λ a. privs_from a rest) (mark_last-append acc (record { char = c; option = false }))
privs_from-one acc c false rest star = privs_from-char acc c rest star

privs_from-print :
    (ps acc : List AclPriv) → All IsPriv ps → privs_from acc (print_privs ps) ≡ acc ++ ps
unfolding privs_from
privs_from-print [] acc h = sym (append-nil acc)
privs_from-print (p ∷ ps) acc ((star, slash), h) =
    privs_from-one acc p.char p.option (print_privs ps) star
    ∙ privs_from-print ps (acc ++ p ∷ []) h
    ∙ append_assoc acc (p ∷ []) ps

split_acl_grantee-Printed :
    (name text rest : Bytes)
    → Printed name text
    → split_acl_grantee (text ++ b'=' ∷ rest) ≡ some (name, rest)
unfolding split_acl_grantee
split_acl_grantee-Printed name text rest (inl e) =
    ap (λ t. split_acl_grantee (t ++ b'=' ∷ rest)) e
    ∙ ap (λ t. quoted_from false t) (append_assoc (doubled name) (b'"' ∷ []) (b'=' ∷ rest))
    ∙ quoted_from-doubled name rest
split_acl_grantee-Printed name text rest (inr (e, bare, plain)) =
    ap (λ t. split_acl_grantee (t ++ b'=' ∷ rest)) e ∙ from name bare plain
  where
    from :
        (n : Bytes)
        → Lacks b'=' n
        → Lacks b'"' n
        → split_acl_grantee (n ++ b'=' ∷ rest) ≡ some (n, rest)
    from [] h k = ap found_pair (cut-Lacks [] rest b'=' h)
    from (c ∷ s) h (kc, k) = elim (Bool-cases (c == b'"')) [
      | inl e' ↦ absurd (ground (arith, e', kc))
      | inr e' ↦ rw e' (ap found_pair (cut-Lacks (c ∷ s) rest b'=' h))
    ]

-- An item of an ACL as postgres prints it, with its grantee bare or between quotes, is parsed into
-- the grantee and exactly its privileges, each with its own grant option; the grantor is dropped.
pub parse_acl_item-Printed :
    (name text grantor : Bytes) (privs : List AclPriv)
    → Printed name text
    → All IsPriv privs
    → parse_acl_item (text ++ b'=' ∷ (print_privs privs ++ b'/' ∷ grantor))
      ≡ some (record { grantee = name; privs = privs })
unfolding parse_acl_item
parse_acl_item-Printed name text grantor privs printed h =
    rw
      (
        split_acl_grantee-Printed name text (print_privs privs ++ b'/' ∷ grantor) printed,
        parse_acl_item,
      )
      (ap (λ t. some (record { grantee = name; privs = t }))
        (ap (λ t. privs_from [] t.0)
            (cut-Lacks (print_privs privs) grantor b'/' (print_privs-Lacks privs h))
          ∙ privs_from-print privs [] h))
