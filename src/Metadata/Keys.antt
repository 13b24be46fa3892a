-- ===== src/Metadata/Keys.antt =====
-- The keys of edges (source/preprocessor/mesh_metadata.cpp).
use dgswemv.Prelude.{ℕ, ◌^◌, ◌<◌, ◌≡◌, ◌⊎◌, ◌↔◌, arith}
use dgswemv.Metadata.{edge_key}

-- Two pairs of node numbers of 32 bits have the same key exactly if they are the same pair up to
-- order.
pub edge_key_iff :
    (a b c d : ℕ)
    → a < 2 ^ 32
    → b < 2 ^ 32
    → c < 2 ^ 32
    → d < 2 ^ 32
    → (edge_key a b ≡ edge_key c d) ↔ ((a ≡ c) × (b ≡ d) ⊎ (a ≡ d) × (b ≡ c))
unfolding edge_key
edge_key_iff a b c d ha hb hc hd = omega arith
