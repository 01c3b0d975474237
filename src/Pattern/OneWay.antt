-- ===== src/Pattern/OneWay.antt =====
-- pattern/oneway.go: the one-way patterns.
use nyquist.Base.{Result, true, [], ◌∷◌, codes}
use nyquist.Pattern.{Pattern, PatternError, token_e, token_es, token_s, token_ss}
use nyquist.Pattern.Psk.{must_make_psk}

abbrev pub n : Pattern
n = record {
  name = codes "N";
  pre_messages = [] ∷ (token_s ∷ []) ∷ [];
  messages = (token_e ∷ token_es ∷ []) ∷ [];
  num_psks = 0;
  is_one_way = true;
}

abbrev pub k : Pattern
k = record {
  name = codes "K";
  pre_messages = (token_s ∷ []) ∷ (token_s ∷ []) ∷ [];
  messages = (token_e ∷ token_es ∷ token_ss ∷ []) ∷ [];
  num_psks = 0;
  is_one_way = true;
}

abbrev pub x : Pattern
x = record {
  name = codes "X";
  pre_messages = [] ∷ (token_s ∷ []) ∷ [];
  messages = (token_e ∷ token_es ∷ token_s ∷ token_ss ∷ []) ∷ [];
  num_psks = 0;
  is_one_way = true;
}

abbrev pub n_psk0 : Result PatternError Pattern
unfolding must_make_psk
n_psk0 = must_make_psk n (codes "psk0")

abbrev pub k_psk0 : Result PatternError Pattern
unfolding must_make_psk
k_psk0 = must_make_psk k (codes "psk0")

abbrev pub x_psk1 : Result PatternError Pattern
unfolding must_make_psk
x_psk1 = must_make_psk x (codes "psk1")
