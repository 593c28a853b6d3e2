-- ===== src/Client/Lobby/Shown.antt =====
-- What the preview of client/src/hooks/useLobbyMedia.ts shows of a device is what its tracks do.
use a_meet.Client.Lobby.{
  Device, Prompt, granted, denied, broken, repeated, begin_change, finish_change, toggle,
}
use a_meet.Prelude.{ℕ, zero, suc, Bool, not, List, [], ◌∷◌, map, ◌≡◌, refl, All}

-- Every track is enabled just if the device is rendered as on.
abbrev pub IsShown : Device → Type 0
IsShown d = All (λ b. b ≡ d.on) d.tracks

repeated-All : (n : ℕ) (b : Bool) → All (λ c. c ≡ b) (repeated n b)
repeated-All zero b = tt
repeated-All (suc n) b = (refl, repeated-All n b)

toggled : (b : Bool) (ts : List Bool) → All (λ c. c ≡ b) (map (λ t. b) ts)
toggled b [] = tt
toggled b (t ∷ ts) = (refl, toggled b ts)

toggle_at :
    (ts : List Bool) (on : Bool)
    → All (λ b. b ≡ on) ts
    → IsShown (toggle (record { tracks = ts; on = on }))
unfolding toggle
toggle_at [] on v = tt
toggle_at (t ∷ ts) on v = (refl, toggled (not t) ts)

-- A click keeps the tracks in step with what is rendered.
pub toggle-IsShown : (d : Device) → IsShown d → IsShown (toggle d)
toggle-IsShown d v = toggle_at d.tracks d.on v

-- A change of the device that nothing interrupts does too, whatever the browser answers.
pub finish_change-IsShown : (p : Prompt) (d : Device) → IsShown (finish_change p (begin_change d))
unfolding finish_change begin_change
finish_change-IsShown (granted n) d = repeated-All n d.on
finish_change-IsShown denied d = tt
finish_change-IsShown broken d = tt
