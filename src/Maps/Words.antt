-- ===== src/Maps/Words.antt =====
-- A word in front of others, for backend/src/services/maps.service.ts.
use hop_drop.Common.{[], ◌∷◌, List, String}

abbrev pub add_word : String → List String → List String
add_word w ws = w ∷ ws

abbrev pub one_word : String → List String
one_word w = w ∷ []
