-- ===== src/Tests/Patterns.antt =====
-- The theorems on pattern validity, at patterns of the package.
use nyquist.Base.{◌≡◌, ◌≤◌, ◌↔◌, [], ◌∷◌, ok, refl}
use nyquist.Pattern.{token_e, token_ee, token_es, token_se, token_ss, token_s, initiator, responder}
use nyquist.Pattern.Validity.{is_valid, check_pre_messages, check_messages, check_token}
use nyquist.Pattern.Rules.{Allowed, IsLawful, history}
use nyquist.Pattern.Rules.Verdict.{is_valid-IsLawful}
use nyquist.Pattern.Rules.Consequences.{times, total, keys_before_dh, sent_once}
use nyquist.Pattern.Interactive.{nn, xx}

xx_valid : is_valid xx ≡ ok tt
unfolding is_valid check_pre_messages check_messages check_token
xx_valid = refl

nn_valid : is_valid nn ≡ ok tt
unfolding is_valid check_pre_messages check_messages check_token
nn_valid = refl

is_valid-IsLawful_example : (is_valid xx ≡ ok tt) ↔ IsLawful xx
is_valid-IsLawful_example = is_valid-IsLawful xx

keys_before_dh_example :
    Allowed responder token_ee ((responder, token_e) ∷ (initiator, token_e) ∷ [])
keys_before_dh_example =
    keys_before_dh nn nn_valid [] ((responder, token_e) ∷ (initiator, token_e) ∷ []) responder
      token_ee refl

sent_once_example :
    (times initiator token_e (history xx) ≤ 1)
    × (times initiator token_s (history xx) ≤ 1)
    × (total token_ee (history xx) ≤ 1)
    × (total token_es (history xx) ≤ 1)
    × (total token_se (history xx) ≤ 1)
    × (total token_ss (history xx) ≤ 1)
sent_once_example = sent_once xx xx_valid initiator
