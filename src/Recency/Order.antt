-- ===== src/Recency/Order.antt =====
-- Entries in recency order, seen without nodes and addresses.
use cache_x.Base.{[], ◌∷◌, List, Option, none, some, Bytes, bytes_eq, if◌then◌else◌}
use cache_x.Recency.{Entry}

unfoldable pub lookup : Bytes → List Entry → Option Entry
lookup k [] = none
lookup k (e ∷ es) = if bytes_eq e.key k then some e else lookup k es

-- The entries without the first that has the key.
unfoldable pub without : Bytes → List Entry → List Entry
without k [] = []
without k (e ∷ es) = let rest = without k es in if bytes_eq e.key k then es else e ∷ rest
