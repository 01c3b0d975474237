-- ===== src/Pattern/Interactive.antt =====
-- pattern/interactive.go: the fundamental interactive patterns and their PSK variants.
use nyquist.Base.{Result, false, [], ◌∷◌, codes}
use nyquist.Pattern.{
  Pattern, PatternError, token_e, token_ee, token_es, token_s, token_se, token_ss,
}
use nyquist.Pattern.Psk.{must_make_psk}

abbrev pub nn : Pattern
nn = record {
  name = codes "NN";
  pre_messages = [];
  messages = (token_e ∷ []) ∷ (token_e ∷ token_ee ∷ []) ∷ [];
  num_psks = 0;
  is_one_way = false;
}

abbrev pub nk : Pattern
nk = record {
  name = codes "NK";
  pre_messages = [] ∷ (token_s ∷ []) ∷ [];
  messages = (token_e ∷ token_es ∷ []) ∷ (token_e ∷ token_ee ∷ []) ∷ [];
  num_psks = 0;
  is_one_way = false;
}

abbrev pub nx : Pattern
nx = record {
  name = codes "NX";
  pre_messages = [];
  messages = (token_e ∷ []) ∷ (token_e ∷ token_ee ∷ token_s ∷ token_es ∷ []) ∷ [];
  num_psks = 0;
  is_one_way = false;
}

abbrev pub xn : Pattern
xn = record {
  name = codes "XN";
  pre_messages = [];
  messages = (token_e ∷ []) ∷ (token_e ∷ token_ee ∷ []) ∷ (token_s ∷ token_se ∷ []) ∷ [];
  num_psks = 0;
  is_one_way = false;
}

abbrev pub xk : Pattern
xk = record {
  name = codes "XK";
  pre_messages = [] ∷ (token_s ∷ []) ∷ [];
  messages = (token_e ∷ token_es ∷ []) ∷ (token_e ∷ token_ee ∷ []) ∷ (token_s ∷ token_se ∷ []) ∷ [];
  num_psks = 0;
  is_one_way = false;
}

abbrev pub xx : Pattern
xx = record {
  name = codes "XX";
  pre_messages = [];
  messages =
      (token_e ∷ [])
      ∷ (token_e ∷ token_ee ∷ token_s ∷ token_es ∷ [])
      ∷ (token_s ∷ token_se ∷ [])
      ∷ [];
  num_psks = 0;
  is_one_way = false;
}

abbrev pub kn : Pattern
kn = record {
  name = codes "KN";
  pre_messages = (token_s ∷ []) ∷ [];
  messages = (token_e ∷ []) ∷ (token_e ∷ token_ee ∷ token_se ∷ []) ∷ [];
  num_psks = 0;
  is_one_way = false;
}

abbrev pub kk : Pattern
kk = record {
  name = codes "KK";
  pre_messages = (token_s ∷ []) ∷ (token_s ∷ []) ∷ [];
  messages = (token_e ∷ token_es ∷ token_ss ∷ []) ∷ (token_e ∷ token_ee ∷ token_se ∷ []) ∷ [];
  num_psks = 0;
  is_one_way = false;
}

abbrev pub kx : Pattern
kx = record {
  name = codes "KX";
  pre_messages = (token_s ∷ []) ∷ [];
  messages = (token_e ∷ []) ∷ (token_e ∷ token_ee ∷ token_se ∷ token_s ∷ token_es ∷ []) ∷ [];
  num_psks = 0;
  is_one_way = false;
}

abbrev pub in_pattern : Pattern
in_pattern = record {
  name = codes "IN";
  pre_messages = [];
  messages = (token_e ∷ token_s ∷ []) ∷ (token_e ∷ token_ee ∷ token_se ∷ []) ∷ [];
  num_psks = 0;
  is_one_way = false;
}

abbrev pub ik : Pattern
ik = record {
  name = codes "IK";
  pre_messages = [] ∷ (token_s ∷ []) ∷ [];
  messages =
      (token_e ∷ token_es ∷ token_s ∷ token_ss ∷ []) ∷ (token_e ∷ token_ee ∷ token_se ∷ []) ∷ [];
  num_psks = 0;
  is_one_way = false;
}

abbrev pub ix : Pattern
ix = record {
  name = codes "IX";
  pre_messages = [];
  messages =
      (token_e ∷ token_s ∷ []) ∷ (token_e ∷ token_ee ∷ token_se ∷ token_s ∷ token_es ∷ []) ∷ [];
  num_psks = 0;
  is_one_way = false;
}

abbrev pub nn_psk0 : Result PatternError Pattern
unfolding must_make_psk
nn_psk0 = must_make_psk nn (codes "psk0")

abbrev pub nn_psk2 : Result PatternError Pattern
unfolding must_make_psk
nn_psk2 = must_make_psk nn (codes "psk2")

abbrev pub nk_psk0 : Result PatternError Pattern
unfolding must_make_psk
nk_psk0 = must_make_psk nk (codes "psk0")

abbrev pub nk_psk2 : Result PatternError Pattern
unfolding must_make_psk
nk_psk2 = must_make_psk nk (codes "psk2")

abbrev pub nx_psk2 : Result PatternError Pattern
unfolding must_make_psk
nx_psk2 = must_make_psk nx (codes "psk2")

abbrev pub xn_psk3 : Result PatternError Pattern
unfolding must_make_psk
xn_psk3 = must_make_psk xn (codes "psk3")

abbrev pub xk_psk3 : Result PatternError Pattern
unfolding must_make_psk
xk_psk3 = must_make_psk xk (codes "psk3")

abbrev pub xx_psk3 : Result PatternError Pattern
unfolding must_make_psk
xx_psk3 = must_make_psk xx (codes "psk3")

abbrev pub kn_psk0 : Result PatternError Pattern
unfolding must_make_psk
kn_psk0 = must_make_psk kn (codes "psk0")

abbrev pub kn_psk2 : Result PatternError Pattern
unfolding must_make_psk
kn_psk2 = must_make_psk kn (codes "psk2")

abbrev pub kk_psk0 : Result PatternError Pattern
unfolding must_make_psk
kk_psk0 = must_make_psk kk (codes "psk0")

abbrev pub kk_psk2 : Result PatternError Pattern
unfolding must_make_psk
kk_psk2 = must_make_psk kk (codes "psk2")

abbrev pub kx_psk2 : Result PatternError Pattern
unfolding must_make_psk
kx_psk2 = must_make_psk kx (codes "psk2")

abbrev pub in_pattern_psk1 : Result PatternError Pattern
unfolding must_make_psk
in_pattern_psk1 = must_make_psk in_pattern (codes "psk1")

abbrev pub in_pattern_psk2 : Result PatternError Pattern
unfolding must_make_psk
in_pattern_psk2 = must_make_psk in_pattern (codes "psk2")

abbrev pub ik_psk1 : Result PatternError Pattern
unfolding must_make_psk
ik_psk1 = must_make_psk ik (codes "psk1")

abbrev pub ik_psk2 : Result PatternError Pattern
unfolding must_make_psk
ik_psk2 = must_make_psk ik (codes "psk2")

abbrev pub ix_psk2 : Result PatternError Pattern
unfolding must_make_psk
ix_psk2 = must_make_psk ix (codes "psk2")
