-- ===== src/Encoding/Tests.antt =====
-- The theorems on the encoder at concrete texts and maps.
use libcoda_net.Base.{[], ◌∷◌, some, ◌≡◌, refl, ascii, assign}
use libcoda_net.Encoding.{decode_map, decode_pairs, find_from, find_at, drop, substr}
use libcoda_net.Buffered.{take}

-- Of two pairs, the first value runs into the second pair, and the second key starts at the ampersand.
decode_map_run :
    decode_map (ascii "a=b&c=d") []
    ≡ some ((ascii "&c=d", ascii "d") ∷ (ascii "a", ascii "b&c") ∷ [])
unfolding decode_map decode_pairs find_from find_at drop substr take assign
decode_map_run = refl
