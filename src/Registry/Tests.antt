-- ===== src/Registry/Tests.antt =====
-- The theorems on the registry at one leaf.
use blue_pods.Prelude.{
  ◌+◌, ◌≡◌, refl, some, none, ◌∷◌, [], replicate, arith, if◌then◌else◌, ◌||◌, ◌==◌, ltb, max,
}
use blue_pods.Registry.{DomainEntry, encode_domain_value, decode_domain_value, domain_expiry}
use blue_pods.Registry.Leaves.{decode_domain_value-encode_domain_value}
use blue_pods.Registry.Leases.{domain_expiry_lem}

abbrev entry : DomainEntry
entry = record {
  name = 97 ∷ [];
  object_id = replicate 32 5;
  owner = replicate 32 9;
  expiry_epoch = 300;
}

decode_domain_value-encode_domain_value_example :
    decode_domain_value entry.name (encode_domain_value entry) ≡ some entry
decode_domain_value-encode_domain_value_example =
    decode_domain_value-encode_domain_value entry refl refl (omega arith)

domain_expiry_lem_example :
    domain_expiry 40 100 12 50
    ≡ (if (12 == 0) || ltb (100 + 50) (max 40 100 + 12) then none else some (max 40 100 + 12))
domain_expiry_lem_example = domain_expiry_lem 40 100 12 50 (omega arith) (omega arith) (omega arith)
