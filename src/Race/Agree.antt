-- ===== src/Race/Agree.antt =====
-- How the phase of `connect`, the status and the connection fit together, and what keeps them so.
use mesquitte_client.Base.{ℕ, ◌⊎◌, inl, inr, ◌≡◌, ◌≢◌, ◌↔◌, refl, Bool, true, false, ◌||◌}
use mesquitte_client.Client.{ConnectStatus, connected, disconnected, connecting}
use mesquitte_client.Race.{Phase, resting, dialing, greeting, spawned, Link, up, over, down, closed}

abbrev pub in_between : Phase → Bool
in_between (spawned _ _) = true
in_between _ = false

-- How phase, status and connection fit together, where `overtook` says that some connection may have ended
-- in between.
abbrev pub Agree : Phase → ConnectStatus → Link → (overtook : Bool) → Type 0
Agree resting connected up _ = Unit {0}
Agree resting connected over _ = Unit
Agree resting connected _ true = Unit
Agree resting disconnected down _ = Unit
Agree resting disconnected closed _ = Unit
Agree (dialing _) connecting closed _ = Unit
Agree (greeting _) connecting closed _ = Unit
Agree (spawned _ _) connecting up _ = Unit
Agree (spawned _ _) connecting over _ = Unit
Agree (spawned _ _) disconnected down true = Unit
Agree (spawned _ _) disconnected closed true = Unit
Agree _ _ _ _ = ⊥

pub begin-Agree :
    (s : ConnectStatus) (l : Link) (o : Bool) (r : ℕ)
    → l ≢ down
    → s ≡ disconnected
    → Agree resting s l o
    → Agree (dialing r) connecting l o
begin-Agree disconnected closed o r free is v = tt
begin-Agree disconnected down o r free is v = absurd (free refl)
begin-Agree disconnected up o r free is v = absurd v
begin-Agree disconnected over o r free is v = absurd v
begin-Agree connected l o r free is v = cc
begin-Agree connecting l o r free is v = cc

-- A call of `connect` that waits has found the connection before cleaned up.
pub dialing-Agree :
    (s : ConnectStatus) (l : Link) (o : Bool) (r : ℕ)
    → Agree (dialing r) s l o
    → (l ≡ closed) × (s ≡ connecting)
dialing-Agree connecting closed o r v = (refl, refl)
dialing-Agree _ _ o r v = absurd v

pub greeting-Agree :
    (s : ConnectStatus) (l : Link) (o : Bool) (r : ℕ)
    → Agree (greeting r) s l o
    → (l ≡ closed) × (s ≡ connecting)
greeting-Agree connecting closed o r v = (refl, refl)
greeting-Agree _ _ o r v = absurd v

pub conclude-Agree :
    (s : ConnectStatus) (l : Link) (o : Bool) (r : ℕ) (session_present : Bool)
    → Agree (spawned r session_present) s l o
    → Agree resting connected l o
conclude-Agree connecting up o r session_present v = tt
conclude-Agree connecting over o r session_present v = tt
conclude-Agree disconnected down true r session_present v = tt
conclude-Agree disconnected closed true r session_present v = tt
conclude-Agree _ _ _ r session_present v = absurd v

pub lose-Agree :
    (p : Phase) (s : ConnectStatus) (o : Bool)
    → Agree p s over o
    → Agree p disconnected down (in_between p || o)
lose-Agree resting connected o v = tt
lose-Agree (spawned r b) connecting o v = tt
lose-Agree (dialing r) connecting o v = absurd v
lose-Agree (greeting r) connecting o v = absurd v
lose-Agree _ _ o v = absurd v

pub end-Agree : (p : Phase) (s : ConnectStatus) (o : Bool) → Agree p s up o → Agree p s over o
end-Agree resting connected o v = tt
end-Agree (spawned r b) connecting o v = tt
end-Agree (dialing r) connecting o v = absurd v
end-Agree (greeting r) connecting o v = absurd v
end-Agree _ _ _ v = absurd v

pub clean-Agree : (p : Phase) (s : ConnectStatus) (o : Bool) → Agree p s down o → Agree p s closed o
clean-Agree resting connected true v = tt
clean-Agree resting disconnected o v = tt
clean-Agree (dialing r) connecting o v = absurd v
clean-Agree (greeting r) connecting o v = absurd v
clean-Agree (spawned r b) disconnected true v = tt
clean-Agree _ _ _ v = absurd v

pub resting_lem :
    (s : ConnectStatus) (l : Link)
    → Agree resting s l false
    → ((s ≡ connected) ↔ ((l ≡ up) ⊎ (l ≡ over))) × (s ≢ connecting)
resting_lem connected up v = ((λ e. inl refl, λ e. refl), λ e. cc)
resting_lem connected over v = ((λ e. inr refl, λ e. refl), λ e. cc)
resting_lem disconnected down v =
    ((λ e. cc, λ e. elim e [ inl up_e ↦ cc | inr over_e ↦ cc ]), λ e. cc)
resting_lem disconnected closed v =
    ((λ e. cc, λ e. elim e [ inl up_e ↦ cc | inr over_e ↦ cc ]), λ e. cc)
resting_lem _ _ v = absurd v

-- `connect` gives up, and there is no connection.
pub given_up : (l : Link) (o : Bool) → l ≡ closed → Agree resting disconnected l o
given_up l o is = rw is tt
