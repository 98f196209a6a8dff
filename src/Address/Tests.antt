-- ===== src/Address/Tests.antt =====
-- The theorems at concrete addresses.
use fishjoy.Base.{ℕ, ◌≡◌, refl, true, some, List, [], ◌∷◌, ◌++◌, replicate, ok, arith}
use fishjoy.Http.{codes}
use fishjoy.Http.Maps.{Text}
use fishjoy.Address.{
  address, undefined, broadcast_address_4, network_address_4, network_address_6, subnet_mask_6,
  prefix_of_6, broadcast_address_6, less, same_address,
}
use fishjoy.Address.Masks.{
  keep_bits, fill_bits, on_prefix, by_index, left_of, network_address_6-low,
  prefix_of_6-subnet_mask_6,
}
use fishjoy.Address.Networks.{networks_4-on_prefix}
use fishjoy.Address.Comparison.{exactly_one, less-exactly_one}
use fishjoy.Address.Names.{
  lookup_target, lookup_target-two_colons, UnixAddress, unix_address, get_path, shown,
  unix_address-get_path,
}

networks_4-on_prefix_example :
    (broadcast_address_4 (192 ∷ 168 ∷ 77 ∷ 9 ∷ []) 20
      ≡ address (on_prefix fill_bits 20 (192 ∷ 168 ∷ 77 ∷ 9 ∷ [])))
    × (network_address_4 (192 ∷ 168 ∷ 77 ∷ 9 ∷ []) 20
        ≡ address (on_prefix keep_bits 20 (192 ∷ 168 ∷ 77 ∷ 9 ∷ [])))
networks_4-on_prefix_example =
    networks_4-on_prefix 192 168 77 9 20
      (omega arith, (omega arith, (omega arith, (omega arith, tt)))) (omega arith) (omega arith)

-- The network of 192.168.77.9/20.
network_20 : network_address_4 (192 ∷ 168 ∷ 77 ∷ 9 ∷ []) 20 ≡ address (192 ∷ 168 ∷ 64 ∷ 0 ∷ [])
unfolding network_address_4
network_20 = refl

abbrev four : List ℕ
four = 32 ∷ 1 ∷ 13 ∷ 189 ∷ []

network_address_6-low_example : network_address_6 four 12 ≡ address (by_index (left_of 12) four)
network_address_6-low_example =
    network_address_6-low four 12 (omega arith, (omega arith, (omega arith, (omega arith, tt))))
      (omega arith)

-- A prefix of all bits writes behind the address.
behind : broadcast_address_6 (replicate 16 0) 128 ≡ undefined
unfolding broadcast_address_6
behind = refl

prefix_of_6-subnet_mask_6_example :
    (a : List ℕ) × (subnet_mask_6 60 ≡ address a) × (prefix_of_6 a ≡ 60)
prefix_of_6-subnet_mask_6_example = prefix_of_6-subnet_mask_6 60 (omega arith)

less-exactly_one_example :
    exactly_one
      (less (1 ∷ 2 ∷ []) (1 ∷ []))
      (same_address (1 ∷ 2 ∷ []) (1 ∷ []))
      (less (1 ∷ []) (1 ∷ 2 ∷ []))
    ≡ true
less-exactly_one_example = less-exactly_one (1 ∷ 2 ∷ []) (1 ∷ [])

lookup_target-two_colons_example :
    lookup_target (codes "fe80" ++ (b':' ∷ (codes "" ++ (b':' ∷ codes "1")))) ≡ (
      codes "fe80" ++ (b':' ∷ (codes "" ++ (b':' ∷ codes "1"))),
      some (b':' ∷ (codes "" ++ (b':' ∷ codes "1"))),
    )
lookup_target-two_colons_example =
    lookup_target-two_colons b'f' (codes "e80") (codes "") (codes "1") refl
      (refl, (refl, (refl, (refl, tt)))) tt

abbrev path : Text
path = codes "/tmp"

unix_address-get_path_example :
    (u : UnixAddress) × (unix_address 2 108 path ≡ ok u) × (get_path 2 108 u ≡ shown path)
unix_address-get_path_example =
    unix_address-get_path 2 108 path ((refl, (refl, (refl, (refl, tt)))), omega arith)
