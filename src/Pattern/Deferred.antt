-- ===== src/Pattern/Deferred.antt =====
-- pattern/deferred.go: the deferred patterns.
use nyquist.Base.{false, [], ◌∷◌, codes}
use nyquist.Pattern.{Pattern, token_e, token_ee, token_es, token_s, token_se}

abbrev pub nk1 : Pattern
nk1 = record {
  name = codes "NK1";
  pre_messages = [] ∷ (token_s ∷ []) ∷ [];
  messages = (token_e ∷ []) ∷ (token_e ∷ token_ee ∷ token_es ∷ []) ∷ [];
  num_psks = 0;
  is_one_way = false;
}

abbrev pub nx1 : Pattern
nx1 = record {
  name = codes "NX1";
  pre_messages = [];
  messages = (token_e ∷ []) ∷ (token_e ∷ token_ee ∷ token_s ∷ []) ∷ (token_es ∷ []) ∷ [];
  num_psks = 0;
  is_one_way = false;
}

abbrev pub x1n : Pattern
x1n = record {
  name = codes "X1N";
  pre_messages = [];
  messages = (token_e ∷ []) ∷ (token_e ∷ token_ee ∷ []) ∷ (token_s ∷ []) ∷ (token_se ∷ []) ∷ [];
  num_psks = 0;
  is_one_way = false;
}

abbrev pub x1k : Pattern
x1k = record {
  name = codes "X1K";
  pre_messages = [] ∷ (token_s ∷ []) ∷ [];
  messages =
      (token_e ∷ token_es ∷ []) ∷ (token_e ∷ token_ee ∷ []) ∷ (token_s ∷ []) ∷ (token_se ∷ []) ∷ [];
  num_psks = 0;
  is_one_way = false;
}

abbrev pub xk1 : Pattern
xk1 = record {
  name = codes "XK1";
  pre_messages = [] ∷ (token_s ∷ []) ∷ [];
  messages = (token_e ∷ []) ∷ (token_e ∷ token_ee ∷ token_es ∷ []) ∷ (token_s ∷ token_se ∷ []) ∷ [];
  num_psks = 0;
  is_one_way = false;
}

abbrev pub x1k1 : Pattern
x1k1 = record {
  name = codes "X1K1";
  pre_messages = [] ∷ (token_s ∷ []) ∷ [];
  messages =
      (token_e ∷ []) ∷ (token_e ∷ token_ee ∷ token_es ∷ []) ∷ (token_s ∷ []) ∷ (token_se ∷ []) ∷ [];
  num_psks = 0;
  is_one_way = false;
}

abbrev pub x1x : Pattern
x1x = record {
  name = codes "X1X";
  pre_messages = [];
  messages =
      (token_e ∷ [])
      ∷ (token_e ∷ token_ee ∷ token_s ∷ token_es ∷ [])
      ∷ (token_s ∷ [])
      ∷ (token_se ∷ [])
      ∷ [];
  num_psks = 0;
  is_one_way = false;
}

abbrev pub xx1 : Pattern
xx1 = record {
  name = codes "XX1";
  pre_messages = [];
  messages =
      (token_e ∷ [])
      ∷ (token_e ∷ token_ee ∷ token_s ∷ [])
      ∷ (token_es ∷ token_s ∷ token_se ∷ [])
      ∷ [];
  num_psks = 0;
  is_one_way = false;
}

abbrev pub x1x1 : Pattern
x1x1 = record {
  name = codes "X1X1";
  pre_messages = [];
  messages =
      (token_e ∷ [])
      ∷ (token_e ∷ token_ee ∷ token_s ∷ [])
      ∷ (token_es ∷ token_s ∷ [])
      ∷ (token_se ∷ [])
      ∷ [];
  num_psks = 0;
  is_one_way = false;
}

abbrev pub k1n : Pattern
k1n = record {
  name = codes "K1N";
  pre_messages = (token_s ∷ []) ∷ [];
  messages = (token_e ∷ []) ∷ (token_e ∷ token_ee ∷ []) ∷ (token_se ∷ []) ∷ [];
  num_psks = 0;
  is_one_way = false;
}

abbrev pub k1k : Pattern
k1k = record {
  name = codes "K1K";
  pre_messages = (token_s ∷ []) ∷ (token_s ∷ []) ∷ [];
  messages = (token_e ∷ token_es ∷ []) ∷ (token_e ∷ token_ee ∷ []) ∷ (token_se ∷ []) ∷ [];
  num_psks = 0;
  is_one_way = false;
}

abbrev pub kk1 : Pattern
kk1 = record {
  name = codes "KK1";
  pre_messages = (token_s ∷ []) ∷ (token_s ∷ []) ∷ [];
  messages = (token_e ∷ []) ∷ (token_e ∷ token_ee ∷ token_se ∷ token_es ∷ []) ∷ [];
  num_psks = 0;
  is_one_way = false;
}

abbrev pub k1k1 : Pattern
k1k1 = record {
  name = codes "K1K1";
  pre_messages = (token_s ∷ []) ∷ (token_s ∷ []) ∷ [];
  messages = (token_e ∷ []) ∷ (token_e ∷ token_ee ∷ token_es ∷ []) ∷ (token_se ∷ []) ∷ [];
  num_psks = 0;
  is_one_way = false;
}

abbrev pub k1x : Pattern
k1x = record {
  name = codes "K1X";
  pre_messages = (token_s ∷ []) ∷ [];
  messages = (token_e ∷ []) ∷ (token_e ∷ token_ee ∷ token_s ∷ token_es ∷ []) ∷ (token_se ∷ []) ∷ [];
  num_psks = 0;
  is_one_way = false;
}

abbrev pub kx1 : Pattern
kx1 = record {
  name = codes "KX1";
  pre_messages = (token_s ∷ []) ∷ [];
  messages = (token_e ∷ []) ∷ (token_e ∷ token_ee ∷ token_se ∷ token_s ∷ []) ∷ (token_es ∷ []) ∷ [];
  num_psks = 0;
  is_one_way = false;
}

abbrev pub k1x1 : Pattern
k1x1 = record {
  name = codes "K1X1";
  pre_messages = (token_s ∷ []) ∷ [];
  messages = (token_e ∷ []) ∷ (token_e ∷ token_ee ∷ token_s ∷ []) ∷ (token_se ∷ token_es ∷ []) ∷ [];
  num_psks = 0;
  is_one_way = false;
}

abbrev pub i1n : Pattern
i1n = record {
  name = codes "I1N";
  pre_messages = [];
  messages = (token_e ∷ token_s ∷ []) ∷ (token_e ∷ token_ee ∷ []) ∷ (token_se ∷ []) ∷ [];
  num_psks = 0;
  is_one_way = false;
}

abbrev pub i1k : Pattern
i1k = record {
  name = codes "I1K";
  pre_messages = [] ∷ (token_s ∷ []) ∷ [];
  messages = (token_e ∷ token_es ∷ token_s ∷ []) ∷ (token_e ∷ token_ee ∷ []) ∷ (token_se ∷ []) ∷ [];
  num_psks = 0;
  is_one_way = false;
}

abbrev pub ik1 : Pattern
ik1 = record {
  name = codes "IK1";
  pre_messages = [] ∷ (token_s ∷ []) ∷ [];
  messages = (token_e ∷ token_s ∷ []) ∷ (token_e ∷ token_ee ∷ token_se ∷ token_es ∷ []) ∷ [];
  num_psks = 0;
  is_one_way = false;
}

abbrev pub i1k1 : Pattern
i1k1 = record {
  name = codes "I1K1";
  pre_messages = [] ∷ (token_s ∷ []) ∷ [];
  messages = (token_e ∷ token_s ∷ []) ∷ (token_e ∷ token_ee ∷ token_es ∷ []) ∷ (token_se ∷ []) ∷ [];
  num_psks = 0;
  is_one_way = false;
}

abbrev pub i1x : Pattern
i1x = record {
  name = codes "I1X";
  pre_messages = [];
  messages =
      (token_e ∷ token_s ∷ [])
      ∷ (token_e ∷ token_ee ∷ token_s ∷ token_es ∷ [])
      ∷ (token_se ∷ [])
      ∷ [];
  num_psks = 0;
  is_one_way = false;
}

abbrev pub ix1 : Pattern
ix1 = record {
  name = codes "IX1";
  pre_messages = [];
  messages =
      (token_e ∷ token_s ∷ [])
      ∷ (token_e ∷ token_ee ∷ token_se ∷ token_s ∷ [])
      ∷ (token_es ∷ [])
      ∷ [];
  num_psks = 0;
  is_one_way = false;
}

abbrev pub i1x1 : Pattern
i1x1 = record {
  name = codes "I1X1";
  pre_messages = [];
  messages =
      (token_e ∷ token_s ∷ [])
      ∷ (token_e ∷ token_ee ∷ token_s ∷ [])
      ∷ (token_se ∷ token_es ∷ [])
      ∷ [];
  num_psks = 0;
  is_one_way = false;
}
