-- ===== src/Runtime/Bindings.antt =====
-- internal/runtime/config.go: which lists of exit bindings `validateExitBindings` accepts.
use go_proxy_server.Prelude.{
  ℕ, ◌+◌, ◌≡◌, refl, sym, ◌≢◌, ◌↔◌, Bool, false, not, List, [], ◌∷◌, Option, none, some, Bytes,
  bytes_dec, All, ok, Result, ◌>>◌, fail_if, arith,
}
use go_proxy_server.Prelude.GoMap.{GoMap, lookup, insert, lookup-insert}
use go_proxy_server.Prelude.Strings.{trim_space}
use go_proxy_server.Runtime.Config.{ExitBinding}
use go_proxy_server.Runtime.Validate.{
  Parsers, ConfigError, invalid_ingress, invalid_outbound, duplicate_ingress, is_none, bad_outbound,
  check_bindings, validate_exit_bindings,
}

module _ (parsers : Parsers) where
  -- The two addresses of a binding: an IP to come in by, and a specified IP to go out by.
  pub record IsBinding (b : ExitBinding) : Type 0 where
    pub ingress : is_none parsers (parsers.parse_ip (trim_space b.ingress_local_ip)) ≡ false
    pub outbound : bad_outbound parsers (parsers.parse_ip (trim_space b.outbound_local_ip)) ≡ false

  -- No two bindings have the same ingress address, as text without the space around it.
  abbrev pub AllDistinct : List ExitBinding → Type 0
  AllDistinct [] = Unit {0}
  AllDistinct (b ∷ bs) =
      All (λ c. trim_space c.ingress_local_ip ≢ trim_space b.ingress_local_ip) bs × AllDistinct bs

  -- None of the bindings has an address seen before.
  abbrev pub Unseen : GoMap Bytes (Unit {0}) → List ExitBinding → Type 0
  Unseen seen bs = All (λ c. lookup bytes_dec (trim_space c.ingress_local_ip) seen ≡ none) bs

  lookup-insert-none :
      (k x : Bytes) (seen : GoMap Bytes (Unit {0}))
      → (lookup bytes_dec x (insert bytes_dec k tt seen) ≡ none)
        ↔ ((x ≢ k) × (lookup bytes_dec x seen ≡ none))
  lookup-insert-none k x seen =
      let here = lookup-insert bytes_dec k x tt seen in
      elim (bytes_dec k x) [
        | yes p ↦ (λ u. ground arith, λ a. absurd (a.0 (sym p)))
        | no n ↦ (λ u. ((λ e. n (sym e)), ground arith), λ a. ground arith)
      ]

  Unseen-insert :
      (k : Bytes) (seen : GoMap Bytes (Unit {0})) (bs : List ExitBinding)
      → Unseen (insert bytes_dec k tt seen) bs
        ↔ (All (λ c. trim_space c.ingress_local_ip ≢ k) bs × Unseen seen bs)
  Unseen-insert k seen [] = (λ _. (tt, tt), λ _. tt)
  Unseen-insert k seen (b ∷ bs) =
      let (to, from) = Unseen-insert k seen bs in
      let (to', from') = lookup-insert-none k (trim_space b.ingress_local_ip) seen in
      (
        λ (here, u).
            let (apart, new) = to' here in
            let (aparts, news) = to u in ((apart, aparts), (new, news)),
        λ ((apart, aparts), (new, news)). (from' (apart, new), from (aparts, news)),
      )

  checks_lem :
      (a b : Bool) (r : Option (Unit {0})) (x y z : ConfigError) (m : Result ConfigError (Unit {0}))
      → ((fail_if a x >> (fail_if b y >> (fail_if (not (is_none parsers r)) z >> m))) ≡ ok tt)
        ↔ ((a ≡ false) × (b ≡ false) × (r ≡ none) × (m ≡ ok tt))
  checks_lem a b none x y z m = (λ e. ground arith, λ h. ground arith)
  checks_lem a b (some _) x y z m = (λ e. ground arith, λ h. ground arith)

  check_bindings_iff :
      (i : ℕ) (seen : GoMap Bytes (Unit {0})) (bs : List ExitBinding)
      → (check_bindings parsers i seen bs ≡ ok tt)
        ↔ (All IsBinding bs × AllDistinct bs × Unseen seen bs)
  unfolding check_bindings
  check_bindings_iff i seen [] = (λ _. (tt, tt, tt), λ _. refl)
  check_bindings_iff i seen (b ∷ bs) =
      let k = trim_space b.ingress_local_ip in
      let (to, from) = check_bindings_iff (i + 1) (insert bytes_dec k tt seen) bs in
      let (apart, together) = Unseen-insert k seen bs in
      let (passed, pass) =
        checks_lem (is_none parsers (parsers.parse_ip k))
          (bad_outbound parsers (parsers.parse_ip (trim_space b.outbound_local_ip)))
          (lookup bytes_dec k seen) (invalid_ingress i) (invalid_outbound i) (duplicate_ingress i)
          (check_bindings parsers (i + 1) (insert bytes_dec k tt seen) bs) in
      (
        λ e.
            let (ingress, outbound, new, rest) = passed e in
            let (good, distinct, unseen) = to rest in
            let (others, news) = apart unseen in
            (
              (record { ingress = ingress; outbound = outbound }, good),
              (others, distinct),
              (new, news),
            ),
        λ ((here, good), (others, distinct), (new, news)).
            pass (here.ingress, here.outbound, new, from (good, distinct, together (others, news))),
      )

  -- A list of exit bindings is accepted exactly if every binding has an IP to come in by and a
  -- specified IP to go out by, and no two have the same ingress address, as text without the space
  -- around it.
  pub validate_exit_bindings_iff :
      (bs : List ExitBinding)
      → (validate_exit_bindings parsers bs ≡ ok tt) ↔ (All IsBinding bs × AllDistinct bs)
  unfolding validate_exit_bindings lookup
  validate_exit_bindings_iff bs =
      let (to, from) = check_bindings_iff 0 [] bs in
      (
        λ e. let (good, distinct, unseen) = to e in (good, distinct),
        λ (good, distinct). from (good, distinct, unseen_all bs),
      )
    where
      unseen_all : (l : List ExitBinding) → Unseen [] l
      unseen_all [] = tt
      unseen_all (x ∷ l) = (refl, unseen_all l)
