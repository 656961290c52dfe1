-- ===== src/SearchView/State.antt =====
-- `SearchState` of include/presentation/SearchPresenter.hpp.
pub data SearchState : Type 0 where
  idle loading results empty cancelled failed : SearchState
