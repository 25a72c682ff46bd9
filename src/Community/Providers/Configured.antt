-- ===== src/Community/Providers/Configured.antt =====
-- Which keys the list of apps/community/providers.mjs can hold.
use open_claw_bot.Common.{ℕ, ◌+◌, ◌≡◌, true, false, List, [], ◌∷◌}
use open_claw_bot.Common.Texts.{text_eq}
use open_claw_bot.Community.Providers.Read.{Listed, is_allowed_url, is_seen}

-- A list of providers from the slot `n` on: each has its place as its slot and an address that is
-- allowed, and no two have one address and one key.
abbrev pub IsPool : ℕ → List Listed → Type 0
IsPool n [] = Unit
IsPool n (p ∷ ps) =
    (p.slot ≡ n)
    × (is_allowed_url p.url ≡ true)
    × (is_seen p.url p.api_key ps ≡ false)
    × IsPool (n + 1) ps
