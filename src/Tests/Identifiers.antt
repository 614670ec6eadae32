-- ===== src/Tests/Identifiers.antt =====
-- The identifiers of a time.
use bet_advise.Base.{◌≡◌, refl, true, [], ◌∷◌, arith}
use bet_advise.Base.Text.{codes}
use bet_advise.Identifiers.{
  Random, to_hex, hex_bytes, grouped, ver_and_rand_hex, var_and_rand_hex, generate_uuid_v7,
}
use bet_advise.Identifiers.Layout.{
  timestamp_of, timestamp_of-generate_uuid_v7, IsUuidV7, generate_uuid_v7-IsUuidV7,
}
use bet_advise.Identifiers.Order.{text_lt, text_lt-generate_uuid_v7}

abbrev random : Random
random = record {
  first = 171;
  second = 205;
  third = 255;
  others = 1 ∷ 2 ∷ 3 ∷ 4 ∷ 5 ∷ 6 ∷ 254 ∷ [];
}

generated : generate_uuid_v7 1700000000000 random ≡ codes "018bcfe5-6800-7bcd-bf01-0203040506fe"
unfolding generate_uuid_v7 to_hex hex_bytes grouped ver_and_rand_hex var_and_rand_hex
generated = refl

timestamp_of-generate_uuid_v7_example :
    timestamp_of (generate_uuid_v7 1700000000000 random) ≡ 1700000000000
timestamp_of-generate_uuid_v7_example =
    timestamp_of-generate_uuid_v7 1700000000000 random (omega arith)

generate_uuid_v7-IsUuidV7_example : IsUuidV7 (generate_uuid_v7 1700000000000 random)
generate_uuid_v7-IsUuidV7_example =
    generate_uuid_v7-IsUuidV7 1700000000000 random (omega arith) refl (omega arith)

text_lt-generate_uuid_v7_example :
    text_lt (generate_uuid_v7 1699999999999 random) (generate_uuid_v7 1700000000000 random) ≡ true
text_lt-generate_uuid_v7_example =
    text_lt-generate_uuid_v7 1699999999999 1700000000000 random random (omega arith) (omega arith)
