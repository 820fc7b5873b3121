-- ===== src/ChanAlloc/NoRoom.antt =====
-- openbsc/src/libbsc/chan_alloc.c: the failure of an allocation.
use openbsc.Base.{◌≡◌, none}
use openbsc.ChanAlloc.{Pchan, tch_f_pdch, ChanType, Bts, try_pchan}

abbrev NoTraffic : Bts → Type 0
NoTraffic b =
    (try_pchan b Pchan.tch_f ChanType.tch_f ≡ none)
    × (try_pchan b Pchan.tch_h ChanType.tch_h ≡ none)
    × (try_pchan b tch_f_pdch ChanType.tch_f ≡ none)
