-- ===== src/Tools/Dispatch/Window.antt =====
-- The window of sends of `_rate_guard` in ewsmcp/tools/base.py.
use exchange_mcp.Prelude.{
  ℕ, ◌≤◌, ◌<◌, arith, ◌≡◌, refl, ap, Bool, true, false, Option, none, some, List, [], ◌∷◌, ◌++◌,
  ◌⊎◌, inl, inr, if◌then◌else◌, leb, length, length-append, All, ◌==◌,
}
use exchange_mcp.Prelude.Int.{ℤ, pos, ◌-ℤ◌, ltb_ℤ}
use exchange_mcp.Tools.Errors.{rate_capped, ToolError}
use exchange_mcp.Tools.Dispatch.{recent_sends, retry_in, rate_guard}

-- The time lies more than an hour back.
abbrev pub Expired : ℤ → ℤ → Type 0
Expired now t = ltb_ℤ (pos 3600) (now -ℤ t) ≡ true

abbrev pub StartsFresh : ℤ → List ℤ → Type 0
StartsFresh now [] = Unit
StartsFresh now (t ∷ ts) = ltb_ℤ (pos 3600) (now -ℤ t) ≡ false

-- What is left of the sends, oldest first, once those of more than an hour ago are dropped.
abbrev pub RecentOf : ℤ → List ℤ → List ℤ → Type 0
RecentOf now sends kept =
    (old : List ℤ) × (sends ≡ old ++ kept) × All (Expired now) old × StartsFresh now kept

recent_sends-RecentOf : (now : ℤ) (sends : List ℤ) → RecentOf now sends (recent_sends now sends)
unfolding recent_sends
recent_sends-RecentOf now [] = ([], refl, tt, tt)
recent_sends-RecentOf now (t ∷ ts) =
    go (ltb_ℤ (pos 3600) (now -ℤ t)) refl (recent_sends-RecentOf now ts)
  where
    go :
        (b : Bool)
        → ltb_ℤ (pos 3600) (now -ℤ t) ≡ b
        → RecentOf now ts (recent_sends now ts)
        → RecentOf now (t ∷ ts) (if b then recent_sends now ts else t ∷ ts)
    go true e (old, same, expired, fresh) =
        (t ∷ old, ap (λ (xs : List ℤ). t ∷ xs) same, (e, expired), fresh)
    go false e h = ([], refl, tt, e)

abbrev pub IsRateCapped : Option ToolError → Type 0
IsRateCapped none = ⊥
IsRateCapped (some e) = e.code ≡ rate_capped

-- There is no cap, and the sends are as they were; or the last hour's reached it, and the send is
-- refused; or they did not, and the send is among them.
abbrev pub Uncapped : ℕ → List ℤ → Option ToolError × List ℤ → Type 0
Uncapped cap sends x = (cap ≡ 0) × (x.0 ≡ none) × (x.1 ≡ sends)

abbrev pub Refused : ℕ → ℤ → List ℤ → Option ToolError × List ℤ → Type 0
Refused cap now sends x = (1 ≤ cap) × RecentOf now sends x.1 × (cap ≤ length x.1) × IsRateCapped x.0

abbrev pub Admitted : ℕ → ℤ → List ℤ → Option ToolError × List ℤ → Type 0
Admitted cap now sends x =
    (kept : List ℤ) × RecentOf now sends kept
    × (length kept < cap)
    × (x.1 ≡ kept ++ (now ∷ []))
    × (x.0 ≡ none)

abbrev pub Guarded : ℕ → ℤ → List ℤ → Option ToolError × List ℤ → Type 0
Guarded cap now sends x =
    Uncapped cap sends x ⊎ (Refused cap now sends x ⊎ Admitted cap now sends x)

pub rate_guard-Guarded :
    (cap : ℕ) (now : ℤ) (sends : List ℤ) → Guarded cap now sends (rate_guard cap now sends)
unfolding rate_guard
rate_guard-Guarded cap now sends = go (cap == 0) refl (leb cap (length window)) refl
  where
    window : List ℤ
    window = recent_sends now sends

    none_set : cap == 0 ≡ true → cap ≡ 0
    none_set e = ground arith

    set : cap == 0 ≡ false → 1 ≤ cap
    set e = ground arith

    full : leb cap (length window) ≡ true → cap ≤ length window
    full e = ground arith

    open_slot : leb cap (length window) ≡ false → length window < cap
    open_slot e = ground arith

    go :
        (b : Bool)
        → cap == 0 ≡ b
        → (c : Bool) → leb cap (length window) ≡ c
        → Guarded cap now sends (
            if b
            then (none, sends)
            else if c
            then (some (record { code = rate_capped; retry_after = retry_in now window }), window)
            else (none, window ++ (now ∷ [])))
    go true e c f = inl (none_set e, refl, refl)
    go false e true f = inr (inl (set e, recent_sends-RecentOf now sends, full f, refl))
    go false e false f =
        inr (inr (window, recent_sends-RecentOf now sends, open_slot f, refl, refl))

-- A window is no longer than the sends it is taken from.
pub RecentOf-shorter :
    (now : ℤ) (sends kept : List ℤ) → RecentOf now sends kept → length kept ≤ length sends
RecentOf-shorter now sends kept (old, same, expired, fresh) =
    omega (arith, ap length same, length-append old kept)
