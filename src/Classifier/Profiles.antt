-- ===== src/Classifier/Profiles.antt =====
-- When each profile is the answer: the priorities decide only against bots.
use honeypot_m1spro.Base.{◌≡◌, refl, ◌↔◌, ◌⊎◌, inl, inr, true, false, some, List, ◌∷◌, arith}
use honeypot_m1spro.Classifier.{
  features, match_scanner, match_bruteforcer, match_bot, match_humain, matches_profile,
  priority_order, first_match, classify_session, SessionEvent, Features, Label, scanner_legitime,
  bruteforcer, bot, humain,
}

-- Two profiles that both fit a session are one, unless one of them is the bot.
pub profiles_disjoint :
    (a b : Label) (f : Features)
    → matches_profile a f ≡ true
    → matches_profile b f ≡ true
    → (a ≡ b) ⊎ ((a ≡ bot) ⊎ (b ≡ bot))
unfolding matches_profile match_scanner match_bruteforcer match_bot match_humain
profiles_disjoint scanner_legitime scanner_legitime f h k = inl refl
profiles_disjoint scanner_legitime bruteforcer f h k = absurd (ground arith)
profiles_disjoint scanner_legitime bot f h k = inr (inr refl)
profiles_disjoint scanner_legitime humain f h k = absurd (ground arith)
profiles_disjoint bruteforcer scanner_legitime f h k = absurd (ground arith)
profiles_disjoint bruteforcer bruteforcer f h k = inl refl
profiles_disjoint bruteforcer bot f h k = inr (inr refl)
profiles_disjoint bruteforcer humain f h k = absurd (ground arith)
profiles_disjoint bot b f h k = inr (inl refl)
profiles_disjoint humain scanner_legitime f h k = absurd (ground arith)
profiles_disjoint humain bruteforcer f h k = absurd (ground arith)
profiles_disjoint humain bot f h k = inr (inr refl)
profiles_disjoint humain humain f h k = inl refl

-- A session that is not empty gets the label of a scanner, a bruteforcer or a human exactly if the
-- matcher of that profile accepts it, and that of a bot exactly if the bot's does and neither the
-- scanner's nor the bruteforcer's.
pub classify_session_iff :
    (e : SessionEvent) (events : List SessionEvent)
    → let f : Features = features (e ∷ events) in
      ((classify_session (e ∷ events) ≡ some scanner_legitime) ↔ (match_scanner f ≡ true))
      × ((classify_session (e ∷ events) ≡ some bruteforcer) ↔ (match_bruteforcer f ≡ true))
      × ((classify_session (e ∷ events) ≡ some humain) ↔ (match_humain f ≡ true))
      × ((classify_session (e ∷ events) ≡ some bot)
          ↔ ((match_bot f ≡ true) × (match_scanner f ≡ false) × (match_bruteforcer f ≡ false)))
unfolding classify_session first_match matches_profile
classify_session_iff e events = by_features (features (e ∷ events))
  where
    by_features :
        (f : Features)
        → ((first_match priority_order f ≡ some scanner_legitime) ↔ (match_scanner f ≡ true))
          × ((first_match priority_order f ≡ some bruteforcer) ↔ (match_bruteforcer f ≡ true))
          × ((first_match priority_order f ≡ some humain) ↔ (match_humain f ≡ true))
          × ((first_match priority_order f ≡ some bot)
              ↔ ((match_bot f ≡ true) × (match_scanner f ≡ false) × (match_bruteforcer f ≡ false)))
    by_features f = (ground arith, ground arith, ground arith, ground arith)
