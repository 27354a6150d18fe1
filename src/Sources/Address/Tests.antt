-- ===== src/Sources/Address/Tests.antt =====
-- Runs of the parser of addresses.
use sparqly.Base.{◌≡◌, refl, some, codes, ok, err, arith}
use sparqly.Sources.Address.{
  ParsedSourceAddress, empty_ref, parse_source_address, print_address, split_last,
}
use sparqly.Sources.Address.RoundTrip.{IsAddress, parse-print}

abbrev pinned_glob : ParsedSourceAddress
pinned_glob = record { id = codes "docs:a"; ref = some (codes "v1") }

pinned_glob-IsAddress : IsAddress pinned_glob
pinned_glob-IsAddress = (λ h. ground (arith, h), (λ h. ground (arith, h), (refl, (refl, tt))))

parse-print_example : parse_source_address (print_address pinned_glob) ≡ ok pinned_glob
parse-print_example = parse-print pinned_glob pinned_glob-IsAddress

parse_run : parse_source_address (codes "@docs:a:v1") ≡ ok pinned_glob
unfolding parse_source_address split_last
parse_run = refl

-- A colon at the end is an empty ref.
parse_empty_ref : parse_source_address (codes "@docs:") ≡ err empty_ref
unfolding parse_source_address split_last
parse_empty_ref = refl
