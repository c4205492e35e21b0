-- ===== src/LineBuffer/Tests.antt =====
-- The theorems about the line buffer at small inputs.
use cache_x.Base.{◌≡◌, List, [], ◌∷◌, ◌++◌, Bytes, codes}
use cache_x.LineBuffer.{empty_buffer, drain, feed}
use cache_x.LineBuffer.Lines.{concat, feed-drain}

abbrev pieces : List Bytes
pieces = codes "PI" ∷ (codes "NG" ++ 10 ∷ codes "GE") ∷ (codes "T a" ++ 10 ∷ []) ∷ []

feed-drain_example :
    feed pieces empty_buffer ≡ drain (record { buffer = empty_buffer.buffer ++ concat pieces })
feed-drain_example = feed-drain pieces empty_buffer tt
