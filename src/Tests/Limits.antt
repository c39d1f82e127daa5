-- ===== src/Tests/Limits.antt =====
-- The limits of internal/config/limiter.go at concrete inputs.
use go_proxy_server.Prelude.{
  ◌≡◌, ◌≢◌, refl, ap, subst, ◌⊎◌, Bool, ite, arith, true, false, [], ◌∷◌, Option, none, some, Bytes,
  bytes_dec, ok, err, ℤ, pos, negsuc,
}
use go_proxy_server.Web.Admin.{row, Table, set_system_config}
use go_proxy_server.Config.Limits.{
  Decimals, State, bad_limit, init_limiter_config, load_failed, update_limiter_config,
}
use go_proxy_server.Config.Limits.Restart.{IsConfig, IsDecimals, update-init}

-- A table that has a row for every key.
unfoldable put : (Bytes → Bytes) → Bytes → Bytes → Bytes → Bytes
put d k v j = ite (bytes_dec j k) v (d j)

unfoldable memory : Table (Bytes → Bytes)
unfolding put
memory = record {
  find = λ d k. row (d k);
  create = λ d k v. (put d k v, true);
  save = λ d k v. (put d k v, true);
  create_if_absent = λ d k v. (d, some false);
}

put-same : (d : Bytes → Bytes) (k v : Bytes) → put d k v k ≡ v
unfolding put
put-same d k v = elim (bytes_dec k k) as (λ c. ite c v (d k) ≡ v) [
  | yes _ ↦ refl
  | no off ↦ absurd (off refl)
]

put-other : (d : Bytes → Bytes) (k v j : Bytes) → j ≢ k → put d k v j ≡ d j
unfolding put
put-other d k v j off = elim (bytes_dec j k) as (λ c. ite c v (d j) ≡ d j) [
  | yes e ↦ absurd (off e)
  | no _ ↦ refl
]

puts :
    (d d' : Bytes → Bytes) (k v : Bytes)
    → ◌≡◌ {A = (Bytes → Bytes) × Bool} (put d k v, true) (d', true)
    → (d' k ≡ v) × ((j : Bytes) → j ≢ k → d' j ≡ d j)
puts d d' k v e =
    let there : put d k v ≡ d' = ap (λ p. p.0) e in
    subst (λ t. (t k ≡ v) × ((j : Bytes) → j ≢ k → t j ≡ d j)) there
      (put-same d k v, put-other d k v)

memory-IsConfig : IsConfig memory (λ d k. d k)
unfolding memory
memory-IsConfig = record {
  found = λ d k v e. ground arith;
  created = puts;
  saved = puts;
  missing = λ d k e. absurd (ground arith);
}

abbrev write : ℤ → Bytes
write (pos n) = n ∷ []
write (negsuc n) = 0 ∷ n ∷ []

abbrev read : Bytes → Option ℤ
read (n ∷ []) = some (pos n)
read t = none

abbrev one_place : Decimals
one_place = record { parse_int32 = read; itoa = write }

one_place-IsDecimals : IsDecimals one_place
one_place-IsDecimals = record { read_back = back; not_empty = full }
  where
    back : (z : ℤ) → bad_limit 1000000 z ≡ false → read (write z) ≡ some z
    back (pos n) e = refl
    back (negsuc n) e = absurd (ground arith)

    full : (z : ℤ) → write z ≢ []
    full (pos n) e = ground arith
    full (negsuc n) e = ground arith

abbrev before : State (Bytes → Bytes)
before = record {
  db = λ _. [];
  limits = record { max_connections = pos 100000; max_connections_per_ip = pos 1000 };
}

abbrev after : State (Bytes → Bytes)
after = (update_limiter_config memory one_place (pos 50) (pos 0) before).0

update-init_example :
    (after.limits ≡ record { max_connections = pos 50; max_connections_per_ip = pos 0 })
    × ((init_limiter_config memory one_place (record after { limits = before.limits })
          ≡ (after, ok tt))
        ⊎ ((init_limiter_config memory one_place (record after { limits = before.limits })).1
            ≡ err load_failed))
unfolding update_limiter_config memory set_system_config
update-init_example =
    update-init memory (λ d k. d k) memory-IsConfig one_place one_place-IsDecimals (pos 50) (pos 0)
      before after before.limits refl
