-- ===== src/Pattern/Registry.antt =====
-- pattern/pattern.go: the registry of patterns, `Register`, `FromString` and `init`.
pub mod Lookup
use nyquist.Base.{Option, List, [], ◌∷◌, Bytes, Dict, lookup, Result, ok, err, panic, ◌>>=◌, ◌>>◌}
use nyquist.Pattern.{Pattern, PatternError}
use nyquist.Pattern.Validity.{is_valid}
use nyquist.Pattern.OneWay
use nyquist.Pattern.Interactive
use nyquist.Pattern.Deferred

-- `supportedPatterns`, the latest entry first.
abbrev pub Registry : Type 0
Registry = Dict Pattern

-- `FromString`: `none` is the nil pattern.
abbrev pub from_string : Bytes → Registry → Option Pattern
from_string s reg = lookup s reg

-- `Register`
unfoldable pub register : Pattern → Registry → Result PatternError Registry
register pa reg = do is_valid pa; ok ((pa.name, pa) ∷ reg)

-- The list of `init`, in its order. Making a PSK variant may panic.
unfoldable pub built_in : List (Result PatternError Pattern)
built_in =
    ok OneWay.n
    ∷ ok OneWay.k
    ∷ ok OneWay.x
    ∷ OneWay.n_psk0
    ∷ OneWay.k_psk0
    ∷ OneWay.x_psk1
    ∷ ok Interactive.nn
    ∷ ok Interactive.nk
    ∷ ok Interactive.nx
    ∷ ok Interactive.xn
    ∷ ok Interactive.xk
    ∷ ok Interactive.xx
    ∷ ok Interactive.kn
    ∷ ok Interactive.kk
    ∷ ok Interactive.kx
    ∷ ok Interactive.in_pattern
    ∷ ok Interactive.ik
    ∷ ok Interactive.ix
    ∷ Interactive.nn_psk0
    ∷ Interactive.nn_psk2
    ∷ Interactive.nk_psk0
    ∷ Interactive.nk_psk2
    ∷ Interactive.nx_psk2
    ∷ Interactive.xn_psk3
    ∷ Interactive.xk_psk3
    ∷ Interactive.xx_psk3
    ∷ Interactive.kn_psk0
    ∷ Interactive.kn_psk2
    ∷ Interactive.kk_psk0
    ∷ Interactive.kk_psk2
    ∷ Interactive.kx_psk2
    ∷ Interactive.in_pattern_psk1
    ∷ Interactive.in_pattern_psk2
    ∷ Interactive.ik_psk1
    ∷ Interactive.ik_psk2
    ∷ Interactive.ix_psk2
    ∷ ok Deferred.nk1
    ∷ ok Deferred.nx1
    ∷ ok Deferred.x1n
    ∷ ok Deferred.x1k
    ∷ ok Deferred.xk1
    ∷ ok Deferred.x1k1
    ∷ ok Deferred.x1x
    ∷ ok Deferred.xx1
    ∷ ok Deferred.x1x1
    ∷ ok Deferred.k1n
    ∷ ok Deferred.k1k
    ∷ ok Deferred.kk1
    ∷ ok Deferred.k1k1
    ∷ ok Deferred.k1x
    ∷ ok Deferred.kx1
    ∷ ok Deferred.k1x1
    ∷ ok Deferred.i1n
    ∷ ok Deferred.i1k
    ∷ ok Deferred.ik1
    ∷ ok Deferred.i1k1
    ∷ ok Deferred.i1x
    ∷ ok Deferred.ix1
    ∷ ok Deferred.i1x1
    ∷ []

abbrev pub must : Result PatternError Registry → Result PatternError Registry
must (ok reg) = ok reg
must (err e) = panic
must panic = panic

-- The loop of `init`.
unfoldable pub register_all :
    List (Result PatternError Pattern) → Registry → Result PatternError Registry
unfolding register
register_all [] reg = ok reg
register_all (made ∷ rest) reg = do pa ← made; reg' ← must (register pa reg); register_all rest reg'

-- The package's `init`: the patterns that `FromString` knows, or a panic.
unfoldable pub init : Result PatternError Registry
unfolding built_in register_all
init = register_all built_in []
